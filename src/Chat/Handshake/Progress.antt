-- ===== src/Chat/Handshake/Progress.antt =====
-- That the handshake of apps/web/src/chat/SyncService.ts succeeds when nothing stands in its way.
use risk_p2p.Prelude.{ℕ, ◌-◌, ◌<◌, ◌≡◌, true, false, none, some, [], ◌∷◌, map, arith}
use risk_p2p.Prelude.Text.{Text, text_eq_iff, text_eq_self}
use risk_p2p.Prelude.TextSet.{has}
use risk_p2p.Prelude.Map.{lookup, insert, delete}
use risk_p2p.Chat.Handshake.{
  Env, Identity, IdentityProof, non_empty, begin, challenge, schedule, clear_timer, accept,
  accept_verified, same_session, still_pending, identity_handshake_timeout_ms, empty_sync, Sync,
  Verifying, send_challenge,
}
use risk_p2p.Chat.Handshake.Steps.{
  start, step, run, after, wait_to_verify, go_on_verified, made_ready, peer_found, proved, verified,
  effect,
}

-- The context of a session in which a handshake with `p` may begin.
pub record IsReady (env : Env) (identity : Identity) (token : ℕ) (p : Text) : Type 0 where
  pub signed_in : env.identity ≡ some identity
  pub in_session : env.session_token ≡ some token
  pub in_channel : elim (non_empty env.channel_id) [ none ↦ false | some c ↦ true ] ≡ true
  pub fresh_nonce : non_empty (some env.random_uuid) ≡ some env.random_uuid
  pub data_peer : env.is_data_peer p ≡ true
  pub allowed : env.is_allowed p ≡ true
  pub not_open : env.is_open_peer p ≡ false
  pub not_revoked : env.is_revoked p ≡ false
  pub clock : env.later - env.now < identity_handshake_timeout_ms

abbrev began : Env → Text → Sync
began env p = record empty_sync {
  pending_challenges = (p, env.random_uuid) ∷ [];
  started_at = (p, env.now) ∷ [];
  timers = (p, env.now) ∷ [];
}

begin_started :
    (env : Env) (identity : Identity) (token : ℕ) (p : Text)
    → IsReady env identity token p
    → begin env p empty_sync
      ≡ record { sync = began env p; effects = send_challenge p env.random_uuid ∷ [] }
unfolding begin challenge schedule clear_timer has lookup insert delete
begin_started env identity token p r = ground (arith, text_eq_self p)

abbrev waiting : Env → Identity → ℕ → Text → IdentityProof → Verifying
waiting env identity token p proof = record {
  verifying_token = token;
  verifying_identity = identity;
  verifying_peer = p;
  expected_nonce = env.random_uuid;
  proof = proof;
}

accept_started :
    (env : Env) (identity : Identity) (token : ℕ) (p : Text) (proof : IdentityProof)
    → IsReady env identity token p
    → proof.from_peer_id ≡ p
    → proof.to_peer_id ≡ identity.peer_id
    → proof.nonce ≡ env.random_uuid
    → accept env p proof (began env p) ≡ some (waiting env identity token p proof)
unfolding accept lookup
accept_started env identity token p proof r from to nonce = ground (
  arith,
  text_eq_self p,
  text_eq_iff proof.from_peer_id p,
  text_eq_iff proof.to_peer_id identity.peer_id,
  text_eq_iff proof.nonce env.random_uuid,
)

verified_ready :
    (env : Env) (identity : Identity) (token : ℕ) (p : Text) (proof : IdentityProof)
    → IsReady env identity token p
    → made_ready p (
        map effect
          (accept_verified env (waiting env identity token p proof) true (began env p)).effects)
      ≡ true
unfolding accept_verified same_session still_pending lookup made_ready
verified_ready env identity token p proof r =
    ground (arith, text_eq_self p, text_eq_self env.random_uuid)

-- A peer that is unknown so far is found, answers the challenge with a proof for its nonce, and the
-- check of the proof succeeds: then the peer is made ready. The context is the same all the time: a
-- session in an open channel, in which `p` is allowed, has a data channel, and is neither open nor
-- revoked, and the two readings of the clock are less than the timeout apart.
pub handshake_completes :
    (env : Env) (identity : Identity) (token : ℕ) (p : Text) (proof : IdentityProof)
    → IsReady env identity token p
    → proof.from_peer_id ≡ p
    → proof.to_peer_id ≡ identity.peer_id
    → proof.nonce ≡ env.random_uuid
    → made_ready p
        (run ((env, peer_found p) ∷ (env, proved p proof) ∷ (env, verified 0 true) ∷ []) start).log
      ≡ true
unfolding run step after wait_to_verify go_on_verified made_ready
handshake_completes env identity token p proof r from to nonce =
    rw (begin_started env identity token p r) (
      rw (accept_started env identity token p proof r from to nonce)
        (verified_ready env identity token p proof r))
