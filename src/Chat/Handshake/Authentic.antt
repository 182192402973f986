-- ===== src/Chat/Handshake/Authentic.antt =====
-- Who is made ready by apps/web/src/chat/SyncService.ts, over all orders of its events.
use risk_p2p.Prelude.{◌≡◌, refl, ◌∙◌, ap, Bool, true, none, List, [], ◌∷◌, arith, get_elem?}
use risk_p2p.Prelude.Text.{Text, text_eq_self}
use risk_p2p.Prelude.TextSet.{has}
use risk_p2p.Prelude.Map.{lookup, lookup-delete}
use risk_p2p.Chat.Handshake.{
  Env, Sync, Verifying, clear, clear_timer, begin, timer_fires, accept_verified, accept, respond,
  IdentityProof, nothing, still_pending, same_session,
}
use risk_p2p.Chat.Handshake.Steps.{
  System, Event, start, step, run, sent, proof_checked, made_ready, peer_found, challenged, signed,
  proved, verified, timer, forgotten, reset,
}
use risk_p2p.Chat.Handshake.Invariant.{begin-IsSound, timer_fires-IsSound, forget_peer-IsSound}
use risk_p2p.Chat.Handshake.Quiet.{begin-IsQuiet, timer_fires-IsQuiet, forget_keeps}
use risk_p2p.Chat.Handshake.Kept.{
  IsAuthentic, start-IsAuthentic, after-IsAuthentic, wait-IsAuthentic, verified-IsAuthentic,
  reset_session-IsSound, reset_empty, sign-IsAuthentic, signed-IsAuthentic,
}

-- Every event keeps the maps sound and the log authentic.
pub step-IsAuthentic :
    (env : Env) (e : Event) (y : System) → IsAuthentic y → IsAuthentic (step env e y)
unfolding step
step-IsAuthentic env (peer_found p) y a =
    let q = begin-IsQuiet env p y.sync in
    after-IsAuthentic (begin env p y.sync) y (begin-IsSound env p y.sync a.sound) q.grows q.quiet a
step-IsAuthentic env (challenged p c) y a = sign-IsAuthentic (respond env p c) y a
step-IsAuthentic env (signed i signature) y a =
    signed-IsAuthentic env i signature (get_elem? y.signing i) y a
step-IsAuthentic env (proved p proof) y a =
    wait-IsAuthentic env p proof y (accept env p proof y.sync) refl a
step-IsAuthentic env (verified i valid) y a =
    verified-IsAuthentic env i valid y (get_elem? y.verifying i) refl a
step-IsAuthentic env (timer p) y a =
    let q = timer_fires-IsQuiet env p y.sync in
    after-IsAuthentic (timer_fires env p y.sync) y (timer_fires-IsSound env p y.sync a.sound)
      q.grows q.quiet a
step-IsAuthentic env (forgotten p) y a = record {
  sound = forget_peer-IsSound p y.sync a.sound;
  pending_sent = λ q n h. a.pending_sent q n (forget_keeps p q n y.sync h);
  checks_sent = a.checks_sent;
  ready_checked = a.ready_checked;
}
step-IsAuthentic env reset y a = record {
  sound = reset_session-IsSound y.sync;
  pending_sent = λ q n h. reset_empty q n y.sync y.log h;
  checks_sent = a.checks_sent;
  ready_checked = a.ready_checked;
}

pub run-IsAuthentic :
    (events : List (Env × Event)) (y : System) → IsAuthentic y → IsAuthentic (run events y)
unfolding run
run-IsAuthentic [] y a = a
run-IsAuthentic ((env, e) ∷ events) y a =
    run-IsAuthentic events (step env e y) (step-IsAuthentic env e y a)

-- Whatever events happen from the start, in whatever order: whoever is made ready has been sent a
-- challenge, and a proof of it for the nonce of that challenge has been checked with success.
pub ready_authentic :
    (events : List (Env × Event)) (p : Text)
    → made_ready p (run events start).log ≡ true
    → (n : Text) × (sent p n (run events start).log ≡ true)
      × (proof_checked p n (run events start).log ≡ true)
ready_authentic events p = (run-IsAuthentic events start start-IsAuthentic).ready_checked p

-- Whatever events have happened from the start: for a peer that has failed then, `begin` and a timer
-- change nothing, and no proof is checked.
pub failed_stays_idle :
    (events : List (Env × Event)) (env : Env) (p : Text) (proof : IdentityProof)
    → has p (run events start).sync.failed_peers ≡ true
    → (begin env p (run events start).sync ≡ nothing (run events start).sync)
      × (accept env p proof (run events start).sync ≡ none)
      × (timer_fires env p (run events start).sync ≡ nothing (run events start).sync)
unfolding begin accept timer_fires
failed_stays_idle events env p proof h =
    let a = run-IsAuthentic events start start-IsAuthentic in
    (
      ground arith,
      ground (arith, a.sound.failed_idle p h),
      ground (arith, a.sound.failed_silent p h),
    )

verified_idle :
    (env : Env) (w : Verifying) (s : Sync)
    → same_session env w.verifying_token w.verifying_identity ≡ true
    → still_pending w.verifying_peer w.expected_nonce s ≡ true
    → lookup w.verifying_peer (accept_verified env w true s).sync.pending_challenges ≡ none
unfolding accept_verified clear clear_timer
verified_idle env w s session pending = ground (
  arith,
  lookup-delete w.verifying_peer w.verifying_peer s.pending_challenges,
  text_eq_self w.verifying_peer,
)

not_pending :
    (env : Env) (v : Verifying) (valid : Bool) (s : Sync)
    → lookup v.verifying_peer s.pending_challenges ≡ none
    → accept_verified env v valid s ≡ nothing s
unfolding accept_verified still_pending
not_pending env v valid s h = ground arith

-- Once a check has succeeded in the session in which it was started and for a nonce that is still
-- pending, another check for the same peer that was still running does nothing when it ends.
pub verified_once :
    (env later : Env) (w v : Verifying) (valid : Bool) (s : Sync)
    → v.verifying_peer ≡ w.verifying_peer
    → same_session env w.verifying_token w.verifying_identity ≡ true
    → still_pending w.verifying_peer w.expected_nonce s ≡ true
    → accept_verified later v valid (accept_verified env w true s).sync
      ≡ nothing (accept_verified env w true s).sync
verified_once env later w v valid s same session pending =
    not_pending later v valid (accept_verified env w true s).sync (
      ap (λ p. lookup p (accept_verified env w true s).sync.pending_challenges) same
      ∙ verified_idle env w s session pending)
