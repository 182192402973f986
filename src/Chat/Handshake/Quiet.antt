-- ===== src/Chat/Handshake/Quiet.antt =====
-- What one handler of apps/web/src/chat/SyncService.ts leaves pending, and whom it makes ready.
use risk_p2p.Prelude.{
  ◌≡◌, refl, sym, ◌∙◌, ap, Bool, true, false, ◌&&◌, some, ◌∷◌, map, arith, ◌⊎◌, inl, inr, subst,
}
use risk_p2p.Prelude.Text.{Text, text_eq, text_eq_self, text_eq_iff}
use risk_p2p.Prelude.Map.{lookup, insert, delete, lookup-insert, lookup-delete}
use risk_p2p.Chat.Handshake.{
  Env, Sync, Outcome, Verifying, Signing, clear, clear_timer, fail, schedule, challenge, begin,
  timer_fires, forget_peer, respond_signed, accept_verified, accept, IdentityProof, or_else,
  nothing, send_proof,
}
use risk_p2p.Chat.Handshake.Steps.{effect, sent, made_ready}

pub schedule_keeps :
    (env : Env) (p q n : Text) (s : Sync)
    → lookup q (schedule env p s).sync.pending_challenges ≡ some n
    → lookup q s.pending_challenges ≡ some n
unfolding schedule fail clear clear_timer
schedule_keeps env p q n s h = ground (arith, lookup-delete p q s.pending_challenges)

-- Each nonce that a handler leaves pending was pending before, or is sent by the handler.
abbrev pub Grows : Sync → Outcome → Type 0
Grows s o =
    (q n : Text)
    → lookup q o.sync.pending_challenges ≡ some n
    → (lookup q s.pending_challenges ≡ some n) ⊎ (sent q n (map effect o.effects) ≡ true)

pub begin_cases :
    (env : Env) (p : Text) (s : Sync)
    → (begin env p s ≡ nothing s) ⊎ (begin env p s ≡ challenge env p s)
unfolding begin
begin_cases env p s = ground arith

-- The maps after a challenge has been noted, and before its timer is set.
abbrev pub noted : Env → Text → Sync → Sync
noted env p s = record s {
  started_at = insert p (or_else (lookup p s.started_at) env.now) s.started_at;
  pending_challenges =
      insert p (or_else (lookup p s.pending_challenges) env.random_uuid) s.pending_challenges;
}

pub challenge-Grows : (env : Env) (p : Text) (s : Sync) → Grows s (challenge env p s)
unfolding challenge fail clear clear_timer sent
challenge-Grows env p s q n h =
    let nonce = or_else (lookup p s.pending_challenges) env.random_uuid in
    ground (
      arith,
      schedule_keeps env p q n (noted env p s),
      lookup-insert p q nonce s.pending_challenges,
      lookup-delete p q s.pending_challenges,
      text_eq_self nonce,
    )

pub begin-Grows : (env : Env) (p : Text) (s : Sync) → Grows s (begin env p s)
begin-Grows env p s = elim (begin_cases env p s) [
  | inl e ↦ subst (Grows s) (sym e) (λ q n h. inl h)
  | inr e ↦ subst (Grows s) (sym e) (challenge-Grows env p s)
]

pub quiet_schedule :
    (env : Env) (p q : Text) (s : Sync)
    → made_ready q (map effect (schedule env p s).effects) ≡ false
unfolding schedule fail made_ready
quiet_schedule env p q s = ground arith

pub quiet_challenge :
    (env : Env) (p q : Text) (s : Sync)
    → made_ready q (map effect (challenge env p s).effects) ≡ false
unfolding challenge fail made_ready
quiet_challenge env p q s = ground (arith, quiet_schedule env p q (noted env p s))

pub quiet_begin :
    (env : Env) (p q : Text) (s : Sync) → made_ready q (map effect (begin env p s).effects) ≡ false
unfolding made_ready
quiet_begin env p q s = elim (begin_cases env p s) [
  | inl e ↦ ap (λ (o : Outcome). made_ready q (map effect o.effects)) e
  | inr e ↦ ap (λ (o : Outcome). made_ready q (map effect o.effects)) e ∙ quiet_challenge env p q s
]

pub fail-Grows : (p : Text) (s : Sync) → Grows s (fail p s)
unfolding fail clear clear_timer
fail-Grows p s q n h = ground (arith, lookup-delete p q s.pending_challenges)

-- A handler whose effects make nobody ready, and whose pending nonces are old or sent.
pub record IsQuiet (s : Sync) (o : Outcome) : Type 0 where
  pub grows : Grows s o
  pub quiet : (p : Text) → made_ready p (map effect o.effects) ≡ false

pub nothing-IsQuiet : (s : Sync) → IsQuiet s (nothing s)
unfolding made_ready
nothing-IsQuiet s = record { grows = λ q n h. inl h; quiet = λ q. refl }

pub fail-IsQuiet : (p : Text) (s : Sync) → IsQuiet s (fail p s)
unfolding made_ready fail
fail-IsQuiet p s = record { grows = fail-Grows p s; quiet = λ q. refl }

pub begin-IsQuiet : (env : Env) (p : Text) (s : Sync) → IsQuiet s (begin env p s)
begin-IsQuiet env p s = record { grows = begin-Grows env p s; quiet = λ q. quiet_begin env p q s }

-- The maps after the timer of `p` has been taken out.
abbrev pub fired : Text → Sync → Sync
fired p s = record s { timers = delete p s.timers }

pub fired-IsQuiet : (p : Text) (s : Sync) (o : Outcome) → IsQuiet (fired p s) o → IsQuiet s o
fired-IsQuiet p s o i = record { grows = i.grows; quiet = i.quiet }

pub timer_fires-IsQuiet : (env : Env) (p : Text) (s : Sync) → IsQuiet s (timer_fires env p s)
unfolding timer_fires
timer_fires-IsQuiet env p s = ground (
  arith,
  nothing-IsQuiet s,
  fired-IsQuiet p s (nothing (fired p s)) (nothing-IsQuiet (fired p s)),
  fired-IsQuiet p s (fail p (fired p s)) (fail-IsQuiet p (fired p s)),
  fired-IsQuiet p s (begin env p (fired p s)) (begin-IsQuiet env p (fired p s)),
)

-- A proof that is sent before the effects of a handler changes nothing of this.
pub proof-IsQuiet :
    (p n signature : Text) (s : Sync) (o : Outcome)
    → IsQuiet s o
    → IsQuiet s (record { sync = o.sync; effects = send_proof p n signature ∷ o.effects })
unfolding made_ready sent
proof-IsQuiet p n signature s o i = record { grows = i.grows; quiet = i.quiet }

pub respond_signed-IsQuiet :
    (env : Env) (w : Signing) (signature : Text) (s : Sync)
    → IsQuiet s (respond_signed env w signature s)
unfolding respond_signed
respond_signed-IsQuiet env w signature s =
    let p = w.signing_peer in
    ground (
      arith,
      nothing-IsQuiet s,
      proof-IsQuiet p w.signing_nonce signature s (nothing s) (nothing-IsQuiet s),
      proof-IsQuiet p w.signing_nonce signature s (begin env p s) (begin-IsQuiet env p s),
    )

-- A proof that is checked is of the peer that sends it, and for the pending nonce of that peer.
pub accept_matches :
    (env : Env) (p : Text) (proof : IdentityProof) (s : Sync) (w : Verifying)
    → accept env p proof s ≡ some w
    → (lookup w.verifying_peer s.pending_challenges ≡ some w.expected_nonce)
      × (text_eq w.proof.nonce w.expected_nonce ≡ true)
      × (text_eq w.proof.from_peer_id w.verifying_peer ≡ true)
unfolding accept
accept_matches env p proof s w h = ground arith

pub accept_pending :
    (env : Env) (p : Text) (proof : IdentityProof) (s : Sync) (w : Verifying)
    → accept env p proof s ≡ some w
    → lookup w.verifying_peer s.pending_challenges ≡ some w.proof.nonce
accept_pending env p proof s w h =
    let (pending, same, _) = accept_matches env p proof s w h in
    pending ∙ ap some (sym ((text_eq_iff w.proof.nonce w.expected_nonce).0 same))

pub accept_verified-Grows :
    (env : Env) (w : Verifying) (valid : Bool) (s : Sync) → Grows s (accept_verified env w valid s)
unfolding accept_verified fail clear clear_timer
accept_verified-Grows env w valid s q n h =
    ground (arith, lookup-delete w.verifying_peer q s.pending_challenges)

-- Only the peer of a check that has succeeded is made ready.
pub accept_verified_ready :
    (env : Env) (w : Verifying) (valid : Bool) (s : Sync) (p : Text)
    → made_ready p (map effect (accept_verified env w valid s).effects) ≡ true
    → (valid && text_eq w.verifying_peer p) ≡ true
unfolding accept_verified fail made_ready
accept_verified_ready env w valid s p h = ground arith

pub forget_keeps :
    (p q n : Text) (s : Sync)
    → lookup q (forget_peer p s).pending_challenges ≡ some n
    → lookup q s.pending_challenges ≡ some n
unfolding forget_peer clear clear_timer
forget_keeps p q n s h = ground (arith, lookup-delete p q s.pending_challenges)
