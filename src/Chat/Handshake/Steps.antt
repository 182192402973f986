-- ===== src/Chat/Handshake/Steps.antt =====
-- apps/web/src/chat/SyncService.ts: its handlers in any order. The messages of the peers, the timers,
-- the ends of signatures and checks, and the changes of the session come as events, each with what
-- the context answers then.
use risk_p2p.Prelude.{
  ℕ, Bool, false, ◌&&◌, ◌||◌, Option, none, some, List, [], ◌∷◌, ◌++◌, map, remove_at, get_elem?,
}
use risk_p2p.Prelude.Text.{Text, text_eq}
use risk_p2p.Chat.Handshake.{
  Env, Sync, Outcome, Effect, send_challenge, on_ready, Signing, Verifying, IdentityChallenge,
  IdentityProof, empty_sync, begin, timer_fires, respond, respond_signed, accept, accept_verified,
  forget_peer, reset_session,
}

pub data Event : Type 0 where
  peer_found : Text → Event
  challenged : Text → IdentityChallenge → Event
  signed : ℕ → Text → Event
  proved : Text → IdentityProof → Event
  verified : ℕ → Bool → Event
  timer : Text → Event
  forgotten : Text → Event
  reset : Event

-- What has happened: an effect, or the check of a proof, with the peer and the nonce that stand in
-- it, and the result.
pub data Entry : Type 0 where
  effect : Effect → Entry
  checked : Text → Text → Bool → Entry

pub record System : Type 0 where
  pub sync : Sync
  pub signing : List Signing
  pub verifying : List Verifying
  pub log : List Entry

abbrev pub start : System
start = record { sync = empty_sync; signing = []; verifying = []; log = [] }

unfoldable pub after : Outcome → System → System
after o y = record y { sync = o.sync; log = y.log ++ map effect o.effects }

-- A handler goes on to wait, if it does.
unfoldable pub wait_to_sign : Option Signing → System → System
wait_to_sign none y = y
wait_to_sign (some w) y = record y { signing = w ∷ y.signing }

unfoldable pub wait_to_verify : Option Verifying → System → System
wait_to_verify none y = y
wait_to_verify (some w) y = record y { verifying = w ∷ y.verifying }

-- The wait at `i` ends.
unfoldable pub go_on_signed : Env → ℕ → Text → Option Signing → System → System
unfolding after
go_on_signed env i signature none y = y
go_on_signed env i signature (some w) y = record (after (respond_signed env w signature y.sync) y) {
  signing = remove_at i y.signing;
}

unfoldable pub go_on_verified : Env → ℕ → Bool → Option Verifying → System → System
go_on_verified env i valid none y = y
go_on_verified env i valid (some w) y =
    let o = accept_verified env w valid y.sync in
    record {
      sync = o.sync;
      signing = y.signing;
      verifying = remove_at i y.verifying;
      log = y.log ++ checked w.proof.from_peer_id w.proof.nonce valid ∷ map effect o.effects;
    }

unfoldable pub step : Env → Event → System → System
step env (peer_found p) y = after (begin env p y.sync) y
step env (challenged p c) y = wait_to_sign (respond env p c) y
step env (signed i signature) y = go_on_signed env i signature (get_elem? y.signing i) y
step env (proved p proof) y = wait_to_verify (accept env p proof y.sync) y
step env (verified i valid) y = go_on_verified env i valid (get_elem? y.verifying i) y
step env (timer p) y = after (timer_fires env p y.sync) y
step env (forgotten p) y = record y { sync = forget_peer p y.sync }
step env reset y = record y { sync = reset_session y.sync }

-- Any run of events, the first one first.
unfoldable pub run : List (Env × Event) → System → System
run [] y = y
run ((env, e) ∷ events) y = run events (step env e y)

-- Whether the log holds a challenge to `p` with the nonce `n`.
unfoldable pub sent : Text → Text → List Entry → Bool
sent p n [] = false
sent p n (effect (send_challenge q m) ∷ log) = (text_eq q p && text_eq m n) || sent p n log
sent p n (e ∷ log) = sent p n log

-- Whether the log holds a check of `p` for the nonce `n` that succeeded.
unfoldable pub proof_checked : Text → Text → List Entry → Bool
proof_checked p n [] = false
proof_checked p n (checked q m valid ∷ log) =
    (valid && text_eq q p && text_eq m n) || proof_checked p n log
proof_checked p n (e ∷ log) = proof_checked p n log

-- Whether the log says that `p` is ready.
unfoldable pub made_ready : Text → List Entry → Bool
made_ready p [] = false
made_ready p (effect (on_ready q) ∷ log) = text_eq q p || made_ready p log
made_ready p (e ∷ log) = made_ready p log
