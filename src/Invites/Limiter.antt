-- ===== src/Invites/Limiter.antt =====
-- `InviteAttemptLimiter` of apps/web/src/services/invites/code.ts.
use risk_p2p.Prelude.{
  ℕ, ◌+◌, ◌≤◌, ◌≡◌, refl, ◌∙◌, sym, Bool, true, false, List, [], ◌∷◌, ◌++◌, arith, ltb, leb, length,
  keep, keep-append, keep-keep, length-keep, length-append, if◌then◌else◌,
}

pub record InviteAttemptLimiter : Type 0 where
  pub maximum : ℕ
  pub window_ms : ℕ
  pub attempts : List ℕ

-- `now - timestamp < windowMs`
unfoldable pub recent : ℕ → ℕ → ℕ → Bool
recent window_ms now timestamp = ltb now (timestamp + window_ms)

pub consume : InviteAttemptLimiter → ℕ → InviteAttemptLimiter × Bool
consume l now =
    let fresh = keep (recent l.window_ms now) l.attempts in
    if leb l.maximum (length fresh)
    then (record l { attempts = fresh }, false)
    else (record l { attempts = fresh ++ now ∷ [] }, true)

-- The calls at the times `nows`: the limiter that is left, and the times that were let through.
pub run : InviteAttemptLimiter → List ℕ → List ℕ → InviteAttemptLimiter × List ℕ
run l granted [] = (l, granted)
run l granted (now ∷ nows) =
    let (l', passed) = consume l now in
    run l' (if passed then granted ++ now ∷ [] else granted) nows

-- The times do not go back, from `start` on.
abbrev pub Ascending : ℕ → List ℕ → Type 0
Ascending start [] = Unit
Ascending start (t ∷ ts) = (start ≤ t) × Ascending t ts

abbrev pub last : ℕ → List ℕ → ℕ
last start [] = start
last start (t ∷ ts) = last t ts

pub init : ℕ → ℕ → InviteAttemptLimiter
init maximum window_ms = record { maximum = maximum; window_ms = window_ms; attempts = [] }

recent_later :
    (window now t x : ℕ) → now ≤ t → recent window t x ≡ true → recent window now x ≡ true
unfolding recent
recent_later window now t x h r = ground arith

-- What the limiter still holds is all that counts from `start` on.
record Inv (maximum window start : ℕ) (l : InviteAttemptLimiter) (granted : List ℕ) : Type 0 where
  same_maximum : l.maximum ≡ maximum
  same_window : l.window_ms ≡ window
  bounded : length l.attempts ≤ maximum
  agree : (t : ℕ) → start ≤ t → keep (recent window t) granted ≡ keep (recent window t) l.attempts

module _ (maximum window : ℕ) where
  agree_later :
      (l : InviteAttemptLimiter) (granted : List ℕ) (start now t : ℕ)
      → Inv maximum window start l granted
      → start ≤ now
      → now ≤ t
      → keep (recent window t) granted
        ≡ keep (recent window t) (keep (recent l.window_ms now) l.attempts)
  agree_later l granted start now t inv h k =
      inv.agree t (omega arith)
      ∙ sym (
          keep-keep (recent window t) (recent l.window_ms now) l.attempts
            (λ x r. rw (inv.same_window) (recent_later window now t x k r)))

  consume-Inv :
      (l : InviteAttemptLimiter) (granted : List ℕ) (start now : ℕ)
      → Inv maximum window start l granted
      → start ≤ now
      → Inv maximum window now
          (consume l now).0
          (if (consume l now).1 then granted ++ now ∷ [] else granted)
  unfolding consume
  consume-Inv l granted start now inv h = record {
    same_maximum = ground (arith, inv.same_maximum);
    same_window = ground (arith, inv.same_window);
    bounded = ground (
      arith,
      inv.same_maximum,
      inv.bounded,
      length-keep (recent l.window_ms now) l.attempts,
      length-append (keep (recent l.window_ms now) l.attempts) (now ∷ []),
    );
    agree = λ t k. ground (
      arith,
      agree_later l granted start now t inv h k,
      keep-append (recent window t) granted (now ∷ []),
      keep-append (recent window t) (keep (recent l.window_ms now) l.attempts) (now ∷ []),
    );
  }

  run-Inv :
      (l : InviteAttemptLimiter) (granted : List ℕ) (start : ℕ) (nows : List ℕ)
      → Inv maximum window start l granted
      → Ascending start nows
      → Inv maximum window (last start nows) (run l granted nows).0 (run l granted nows).1
  unfolding run
  run-Inv l granted start [] inv h = inv
  run-Inv l granted start (now ∷ nows) inv h =
      run-Inv (consume l now).0 (if (consume l now).1 then granted ++ now ∷ [] else granted) now
        nows (consume-Inv l granted start now inv h.0) h.1

  init-Inv : (start : ℕ) → Inv maximum window start (init maximum window) []
  unfolding init
  init-Inv start = record {
    same_maximum = refl;
    same_window = refl;
    bounded = omega arith;
    agree = λ t k. refl;
  }

-- However often the limiter is asked, at times that do not go back, it has let no more than `maximum`
-- attempts through within the window that ends at the last call.
pub run-granted :
    (maximum window start : ℕ) (nows : List ℕ)
    → Ascending start nows
    → length (keep (recent window (last start nows)) (run (init maximum window) [] nows).1)
      ≤ maximum
run-granted maximum window start nows h =
    let inv =
      run-Inv maximum window (init maximum window) [] start nows (init-Inv maximum window start)
        h in
    let l = (run (init maximum window) [] nows).0 in
    rw (inv.agree (last start nows) (omega arith))
      (omega (arith, inv.bounded, length-keep {0} (recent window (last start nows)) l.attempts))
