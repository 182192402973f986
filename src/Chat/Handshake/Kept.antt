-- ===== src/Chat/Handshake/Kept.antt =====
-- The invariant of runs of apps/web/src/chat/SyncService.ts, one event at a time.
use risk_p2p.Prelude.{
  remove_at, all-remove_at, all_at, all_imp, ℕ, ◌≡◌, refl, Bool, true, false, ◌&&◌, Option, none,
  some, List, ◌∷◌, ◌++◌, map, arith, inl, inr, all, get_elem?, Bool-cases,
}
use risk_p2p.Prelude.Text.{Text, text_eq, text_eq_iff, text_eq_self}
use risk_p2p.Prelude.Map.{lookup}
use risk_p2p.Chat.Handshake.{
  Env, Sync, Outcome, Verifying, Signing, reset_session, respond_signed, accept_verified, accept,
  IdentityProof,
}
use risk_p2p.Chat.Handshake.Steps.{
  System, Entry, effect, checked, start, wait_to_sign, wait_to_verify, go_on_signed, go_on_verified,
  after, sent, proof_checked, made_ready,
}
use risk_p2p.Chat.Handshake.Invariant.{
  IsSound, empty-IsSound, respond_signed-IsSound, accept_verified-IsSound,
}
use risk_p2p.Chat.Handshake.Log.{
  sent-append, checked-append, ready-append, sent_checked, checked_checked, ready_checked_tail,
}
use risk_p2p.Chat.Handshake.Quiet.{
  Grows, respond_signed-IsQuiet, accept_matches, accept_pending, accept_verified-Grows,
  accept_verified_ready,
}

-- Whether a proof under check is of its peer, and the log holds the challenge that it answers.
abbrev pub asked : List Entry → Verifying → Bool
asked log w =
    text_eq w.proof.from_peer_id w.verifying_peer && sent w.verifying_peer w.proof.nonce log

-- The maps are sound, every pending nonce and the nonce of every proof under check was sent to its peer, and
-- whoever was made ready has answered a nonce that was sent to it.
pub record IsAuthentic (y : System) : Type 0 where
  pub sound : IsSound y.sync
  pub pending_sent :
      (p n : Text) → lookup p y.sync.pending_challenges ≡ some n → sent p n y.log ≡ true
  pub checks_sent : all (asked y.log) y.verifying ≡ true
  pub ready_checked :
      (p : Text)
      → made_ready p y.log ≡ true
      → (n : Text) × (sent p n y.log ≡ true) × (proof_checked p n y.log ≡ true)

pub start-IsAuthentic : IsAuthentic start
unfolding made_ready lookup
start-IsAuthentic = record {
  sound = empty-IsSound;
  pending_sent = λ p n h. cc;
  checks_sent = refl;
  ready_checked = λ p h. cc;
}

-- A handler that makes nobody ready and only leaves nonces pending that it sends or that were pending.
pub after-IsAuthentic :
    (o : Outcome) (y : System)
    → IsSound o.sync
    → Grows y.sync o
    → ((p : Text) → made_ready p (map effect o.effects) ≡ false)
    → IsAuthentic y
    → IsAuthentic (after o y)
unfolding after
after-IsAuthentic o y sound grows quiet a =
    let new = map effect o.effects in
    record {
      sound = sound;
      pending_sent =
          λ p n h. ground (arith, grows p n h, a.pending_sent p n, sent-append p n y.log new);
      checks_sent =
          all_imp (asked y.log) (asked (y.log ++ new)) y.verifying
            (λ w h. ground (arith, sent-append w.verifying_peer w.proof.nonce y.log new))
            a.checks_sent;
      ready_checked = λ p h.
          let (n, s, c) = a.ready_checked p (ground (arith, ready-append p y.log new, quiet p)) in
          (
            n,
            ground (arith, sent-append p n y.log new),
            ground (arith, checked-append p n y.log new),
          );
    }

pub wait-IsAuthentic :
    (env : Env) (p : Text) (proof : IdentityProof) (y : System) (o : Option Verifying)
    → accept env p proof y.sync ≡ o
    → IsAuthentic y
    → IsAuthentic (wait_to_verify o y)
unfolding wait_to_verify
wait-IsAuthentic env p proof y none e a = a
wait-IsAuthentic env p proof y (some w) e a = record {
  sound = a.sound;
  pending_sent = a.pending_sent;
  checks_sent = ground (
    arith,
    a.checks_sent,
    a.pending_sent w.verifying_peer w.proof.nonce (accept_pending env p proof y.sync w e),
    (accept_matches env p proof y.sync w e).2,
  );
  ready_checked = a.ready_checked;
}

-- The check of `w` ends.
pub verified-IsAuthentic :
    (env : Env) (i : ℕ) (valid : Bool) (y : System) (o : Option Verifying)
    → get_elem? y.verifying i ≡ o
    → IsAuthentic y
    → IsAuthentic (go_on_verified env i valid o y)
unfolding go_on_verified
verified-IsAuthentic env i valid y none e a = a
verified-IsAuthentic env i valid y (some w) e a =
    let p = w.proof.from_peer_id in
    let n = w.proof.nonce in
    let new = map effect (accept_verified env w valid y.sync).effects in
    let known = all_at (asked y.log) i y.verifying w a.checks_sent e in
    record {
      sound = accept_verified-IsSound env w valid y.sync a.sound;
      pending_sent = λ q m h. ground (
        arith,
        accept_verified-Grows env w valid y.sync q m h,
        a.pending_sent q m,
        sent-append q m y.log (checked p n valid ∷ new),
        sent_checked q m p n valid new,
      );
      checks_sent =
          all_imp (asked y.log) (asked (y.log ++ checked p n valid ∷ new)) (remove_at i y.verifying)
            (λ v h.
              ground
                (arith, sent-append v.verifying_peer v.proof.nonce y.log (checked p n valid ∷ new)))
            (all-remove_at (asked y.log) i y.verifying a.checks_sent);
      ready_checked = λ q h. elim (Bool-cases (made_ready q y.log)) [
        | inl before ↦
            let (m, s, c) = a.ready_checked q before in
            (
              m,
              ground (arith, s, sent-append q m y.log (checked p n valid ∷ new)),
              ground (arith, c, checked-append q m y.log (checked p n valid ∷ new)),
            )
        | inr not_before ↦
            let now =
              accept_verified_ready env w valid y.sync q
                (ready_checked_tail q p n valid y.log new not_before h) in
            (
              n,
              ground (
                arith,
                known,
                now,
                text_eq_iff p w.verifying_peer,
                text_eq_iff w.verifying_peer q,
                sent-append q n y.log (checked p n valid ∷ new),
              ),
              ground (
                arith,
                now,
                known,
                text_eq_iff p w.verifying_peer,
                text_eq_iff w.verifying_peer q,
                text_eq_self q,
                text_eq_self n,
                checked-append q n y.log (checked p n valid ∷ new),
                checked_checked q p n valid new,
              ),
            )
      ];
    }

pub reset_session-IsSound : (s : Sync) → IsSound (reset_session s)
unfolding reset_session
reset_session-IsSound s = empty-IsSound

pub reset_empty :
    (q n : Text) (s : Sync) (log : List Entry)
    → lookup q (reset_session s).pending_challenges ≡ some n
    → sent q n log ≡ true
unfolding reset_session lookup
reset_empty q n s log h = cc

pub sign-IsAuthentic :
    (o : Option Signing) (y : System) → IsAuthentic y → IsAuthentic (wait_to_sign o y)
unfolding wait_to_sign
sign-IsAuthentic none y a = a
sign-IsAuthentic (some w) y a = record {
  sound = a.sound;
  pending_sent = a.pending_sent;
  checks_sent = a.checks_sent;
  ready_checked = a.ready_checked;
}

pub signed-IsAuthentic :
    (env : Env) (i : ℕ) (signature : Text) (o : Option Signing) (y : System)
    → IsAuthentic y
    → IsAuthentic (go_on_signed env i signature o y)
unfolding go_on_signed
signed-IsAuthentic env i signature none y a = a
signed-IsAuthentic env i signature (some w) y a =
    let quiet = respond_signed-IsQuiet env w signature y.sync in
    let b =
      after-IsAuthentic (respond_signed env w signature y.sync) y
        (respond_signed-IsSound env w signature y.sync a.sound) quiet.grows quiet.quiet a in
    record {
      sound = b.sound;
      pending_sent = b.pending_sent;
      checks_sent = b.checks_sent;
      ready_checked = b.ready_checked;
    }
