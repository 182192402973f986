-- ===== src/Rtc/Quality.antt =====
-- packages/rtc/src/diagnostics/quality.ts
use risk_p2p.Prelude.{
  ◌≡◌, refl, Bool, true, ◌||◌, Option, List, [], ◌∷◌, arith, if◌then◌else◌, ◌++◌, any,
}
use risk_p2p.Prelude.Js.{Number, above}
use risk_p2p.Rtc.Selection.{exceeds}

pub record PeerDiagnostics : Type 0 where
  pub round_trip_time_ms : Option Number
  pub jitter_ms : Option Number
  pub packets_lost : Option Number

pub data ConnectionQuality : Type 0 where
  good degraded poor : ConnectionQuality

is_poor : PeerDiagnostics → Bool
is_poor peer =
    exceeds peer.round_trip_time_ms 600
    || exceeds peer.jitter_ms 100
    || exceeds peer.packets_lost 50

is_degraded : PeerDiagnostics → Bool
is_degraded peer =
    exceeds peer.round_trip_time_ms 350 || exceeds peer.jitter_ms 60 || exceeds peer.packets_lost 20

pub connection_quality : List PeerDiagnostics → ConnectionQuality
connection_quality diagnostics =
    if any is_poor diagnostics then poor else if any is_degraded diagnostics then degraded else good

abbrev pub worst : ConnectionQuality → ConnectionQuality → ConnectionQuality
worst poor q = poor
worst degraded poor = poor
worst degraded q = degraded
worst good q = q

any-append :
    (p : PeerDiagnostics → Bool) (xs ys : List PeerDiagnostics)
    → any p (xs ++ ys) ≡ (any p xs || any p ys)
any-append p [] ys = refl
any-append p (x ∷ xs) ys = ground (arith, any-append p xs ys)

poor_is_degraded : (x : PeerDiagnostics) → is_poor x ≡ true → is_degraded x ≡ true
unfolding is_poor is_degraded exceeds above
poor_is_degraded x h = ground arith

-- The quality of a call is the worst that any of its peers alone would have, so it does not depend
-- on the order of the peers, and a further peer can only make it worse.
pub quality-append :
    (xs ys : List PeerDiagnostics)
    → connection_quality (xs ++ ys) ≡ worst (connection_quality xs) (connection_quality ys)
unfolding connection_quality
quality-append xs ys = ground (arith, any-append is_poor xs ys, any-append is_degraded xs ys)
