-- ===== src/Call/Recovery.antt =====
-- apps/web/src/call/ConnectionRecovery.ts: which peers are being reconnected, and when the message
-- about it may be taken off the screen.
use risk_p2p.Prelude.{
  ◌≡◌, ◌≢◌, refl, Bool, true, false, not, ◌||◌, Option, none, some, List, [], ◌∷◌, ◌++◌, arith,
  find, if◌then◌else◌,
}
use risk_p2p.Prelude.TextSet.{has, add, delete, has-add, has-add_self, has-delete}
use risk_p2p.Prelude.Text.{Text, text_eq, codes}

-- The provider of each network interface.
pub record ConnectionRecovery : Type 0 where
  pub recovering_peers : List Text
  pub failure_message : Option Text
  pub turn_available : Bool
  pub network_interfaces : List Text

is_known : Text → Bool
is_known provider = not (text_eq provider (codes "unknown"))

provider_label : Text → Text
provider_label provider =
    if text_eq provider (codes "zerotier")
    then codes "ZeroTier"
    else if text_eq provider (codes "tailscale")
    then codes "Tailscale"
    else if text_eq provider (codes "wireguard")
    then codes "WireGuard"
    else codes "VPN"

pub call_connection_recovery_message : Bool → List Text → Text
unfolding is_known provider_label
call_connection_recovery_message turn_available network_interfaces =
    elim (find is_known network_interfaces) [
      | some vpn ↦
          codes "A conexão WebRTC foi interrompida com "
          ++ (provider_label vpn
              ++ codes " disponível. Tentando restabelecer automaticamente pela rede privada…")
      | none ↦
          if turn_available
          then codes
              "A conexão WebRTC foi interrompida. Tentando restabelecer automaticamente com ICE/TURN…"
          else codes
              "A conexão WebRTC foi interrompida. Tentando restabelecer automaticamente. Se ela não recuperar, configure TURN para redes NAT/CGNAT ou firewalls restritivos."
    ]

pub reset : ConnectionRecovery
reset = record {
  recovering_peers = [];
  failure_message = none;
  turn_available = false;
  network_interfaces = [];
}

pub begin : Bool → List Text → ConnectionRecovery
unfolding reset
begin turn_available network_interfaces = record reset {
  turn_available = turn_available;
  network_interfaces = network_interfaces;
}

pub failed : ConnectionRecovery → Text → ConnectionRecovery × Text
failed r peer_id =
    let message = call_connection_recovery_message r.turn_available r.network_interfaces in
    (
      record r {
        recovering_peers = add peer_id r.recovering_peers;
        failure_message = some message;
      },
      message,
    )

-- `displayedError !== this.failureMessage`: null is not undefined.
same_message : Option Text → Option Text → Bool
same_message (some a) (some b) = text_eq a b
same_message _ _ = false

is_empty : List Text → Bool
is_empty [] = true
is_empty (x ∷ xs) = false

pub finish : ConnectionRecovery → Text → Option Text → ConnectionRecovery × Bool
unfolding same_message is_empty
finish r peer_id displayed_error =
    let r' = record r { recovering_peers = delete peer_id r.recovering_peers } in
    if not (is_empty r'.recovering_peers) || not (same_message displayed_error r.failure_message)
    then (r', false)
    else (record r' { failure_message = none }, true)

-- What happens after a failure, until the recovery of its peer.
pub data Event : Type 0 where
  fails : Text → Event
  finishes : Text → Option Text → Event

pub step : ConnectionRecovery → Event → ConnectionRecovery
step r (fails p) = (failed r p).0
step r (finishes p e) = (finish r p e).0

pub run : ConnectionRecovery → List Event → ConnectionRecovery
run r [] = r
run r (e ∷ es) = run (step r e) es

-- The event is not the end of the recovery of `p`.
abbrev pub Spares : Text → Event → Type 0
Spares p (fails q) = Unit
Spares p (finishes q e) = q ≢ p

abbrev pub AllSpare : Text → List Event → Type 0
AllSpare p [] = Unit
AllSpare p (e ∷ es) = Spares p e × AllSpare p es

failed-recovering :
    (r : ConnectionRecovery) (p : Text) → has p (failed r p).0.recovering_peers ≡ true
unfolding failed
failed-recovering r p = has-add_self p r.recovering_peers

not_empty : (p : Text) (xs : List Text) → has p xs ≡ true → is_empty xs ≡ false
unfolding has is_empty
not_empty p [] h = cc
not_empty p (x ∷ xs) h = refl

step-recovering :
    (r : ConnectionRecovery) (p : Text) (e : Event)
    → Spares p e
    → has p r.recovering_peers ≡ true
    → has p (step r e).recovering_peers ≡ true
unfolding step failed finish
step-recovering r p (fails q) spare h = has-add p q r.recovering_peers h
step-recovering r p (finishes q e) spare h =
    ground (arith, has-delete p q r.recovering_peers spare h)

run-recovering :
    (r : ConnectionRecovery) (p : Text) (es : List Event)
    → AllSpare p es
    → has p r.recovering_peers ≡ true
    → has p (run r es).recovering_peers ≡ true
unfolding run
run-recovering r p [] spare h = h
run-recovering r p (e ∷ es) spare h =
    run-recovering (step r e) p es spare.1 (step-recovering r p e spare.0 h)

-- While the recovery of one peer has not ended, whatever other peers do, no other recovery that ends
-- takes the message off the screen.
pub finish_other :
    (r : ConnectionRecovery) (p q : Text) (es : List Event) (displayed : Option Text)
    → AllSpare p es
    → q ≢ p
    → (finish (run (failed r p).0 es) q displayed).1 ≡ false
unfolding finish
finish_other r p q es displayed spare ne =
    let r' = run (failed r p).0 es in
    let there = run-recovering (failed r p).0 p es spare (failed-recovering r p) in
    ground (
      arith,
      has-delete p q r'.recovering_peers ne there,
      not_empty p (delete q r'.recovering_peers),
    )
