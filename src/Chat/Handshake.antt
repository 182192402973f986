-- ===== src/Chat/Handshake.antt =====
-- apps/web/src/chat/SyncService.ts: two peers of a chat prove their identities to each other. `Sync`
-- holds the maps of the class. `Env` is what the context and the clock answer during one run of a
-- handler; `now` and `later` are two readings of the clock. What a handler does to the context is the
-- list of its effects. A handler that waits for a signature or its check ends there, and the rest of
-- it is a function of its own on what it has kept in local variables.
pub mod Steps
pub mod Invariant
pub mod Log
pub mod Quiet
pub mod Kept
pub mod Authentic
pub mod Progress
use risk_p2p.Prelude.{
  ℕ, ◌-◌, min, Bool, true, false, not, ◌&&◌, ◌||◌, Option, none, some, List, [], ◌∷◌, ◌++◌, leb,
  ◌==◌, if◌then◌else◌,
}
use risk_p2p.Prelude.Text.{Text, text_eq}
use risk_p2p.Prelude.TextSet.{has, add}
use risk_p2p.Prelude.TextSet
use risk_p2p.Prelude.Map.{Map, lookup, insert, delete}

abbrev pub identity_handshake_timeout_ms : ℕ
identity_handshake_timeout_ms = 12000

-- The local identity; `ref` tells two objects apart.
pub record Identity : Type 0 where
  pub ref : ℕ
  pub peer_id : Text

-- An answer of the peer: the fields that the service reads. `capabilities` is passed on unread.
pub record IdentityProof : Type 0 where
  pub from_peer_id : Text
  pub to_peer_id : Text
  pub nonce : Text
  pub signature : Text
  pub capabilities : Text

pub record IdentityChallenge : Type 0 where
  pub from_peer_id : Text
  pub nonce : Text

pub record Env : Type 0 where
  pub identity : Option Identity
  pub channel_id : Option Text
  pub session_token : Option ℕ
  pub is_data_peer : Text → Bool
  pub is_open_peer : Text → Bool
  pub is_allowed : Text → Bool
  pub is_revoked : Text → Bool
  pub now : ℕ
  pub later : ℕ
  pub random_uuid : Text

-- The maps of `SyncService`; a timer keeps the `startedAt` of its closure, and may fire at any time:
-- its delay is not modelled.
pub record Sync : Type 0 where
  pub pending_challenges : Map Text
  pub timers : Map ℕ
  pub started_at : Map ℕ
  pub failed_peers : List Text
  pub peer_capabilities : Map Text

pub data Effect : Type 0 where
  send_challenge : Text → Text → Effect
  send_proof : Text → Text → Text → Effect
  on_capabilities : Text → Text → Effect
  on_ready : Text → Effect
  on_revoked : Text → Effect
  on_failure : Text → Effect

pub record Outcome : Type 0 where
  pub sync : Sync
  pub effects : List Effect

abbrev pub nothing : Sync → Outcome
nothing s = record { sync = s; effects = [] }

abbrev pub then_effect : Outcome → Effect → Outcome
then_effect o e = record { sync = o.sync; effects = o.effects ++ e ∷ [] }

-- A string that is neither missing nor empty
abbrev pub non_empty : Option Text → Option Text
non_empty none = none
non_empty (some []) = none
non_empty (some (c ∷ cs)) = some (c ∷ cs)

abbrev pub or_else {ℓ} : {A : Type ℓ} → Option A → A → A
or_else none a = a
or_else (some b) a = b

abbrev pub empty_sync : Sync
empty_sync = record {
  pending_challenges = [];
  timers = [];
  started_at = [];
  failed_peers = [];
  peer_capabilities = [];
}

unfoldable pub reset_session : Sync → Sync
reset_session s = empty_sync

unfoldable pub clear_timer : Text → Sync → Sync
clear_timer p s = record s { timers = delete p s.timers }

unfoldable pub clear : Text → Sync → Sync
unfolding clear_timer
clear p s = record (clear_timer p s) { started_at = delete p s.started_at }

unfoldable pub forget_peer : Text → Sync → Sync
forget_peer p s = record (clear p s) {
  pending_challenges = delete p s.pending_challenges;
  failed_peers = TextSet.delete p s.failed_peers;
  peer_capabilities = delete p s.peer_capabilities;
}

unfoldable pub fail : Text → Sync → Outcome
fail p s = record {
  sync = record (clear p s) {
    pending_challenges = delete p s.pending_challenges;
    failed_peers = add p s.failed_peers;
  };
  effects = on_failure p ∷ [];
}

-- `now - startedAt >= IDENTITY_HANDSHAKE_TIMEOUT_MS`, where the clock may have been set back
abbrev pub expired : ℕ → ℕ → Bool
expired now started = leb identity_handshake_timeout_ms (now - started)

unfoldable pub schedule : Env → Text → Sync → Outcome
schedule env p s =
    let cleared = clear_timer p s in
    let started = or_else (lookup p s.started_at) env.later in
    let timed = record cleared { started_at = insert p started s.started_at } in
    elim env.identity [
      | none ↦ nothing cleared
      | some identity ↦
          if not (env.is_data_peer p) || env.is_open_peer p || has p s.failed_peers
          then nothing cleared
          else if expired env.later started
          then fail p timed
          else nothing (record timed { timers = insert p started cleared.timers })
    ]

-- `begin` past its first guard.
unfoldable pub challenge : Env → Text → Sync → Outcome
challenge env p s =
    let started = or_else (lookup p s.started_at) env.now in
    let timed = record s { started_at = insert p started s.started_at } in
    if expired env.now started
    then fail p timed
    else let nonce = or_else (lookup p s.pending_challenges) env.random_uuid in
      let sent = record timed { pending_challenges = insert p nonce s.pending_challenges } in
      let scheduled = schedule env p sent in
      record { sync = scheduled.sync; effects = send_challenge p nonce ∷ scheduled.effects }

unfoldable pub begin : Env → Text → Sync → Outcome
begin env p s = elim env.identity [
  | none ↦ nothing s
  | some identity ↦ elim (non_empty env.channel_id) [
    | none ↦ nothing s
    | some channel ↦
        if not (env.is_data_peer p)
          || not (env.is_allowed p)
          || env.is_open_peer p
          || has p s.failed_peers
        then nothing s
        else challenge env p s
  ]
]

-- The callback of the timer of `p`.
unfoldable pub timer_fires : Env → Text → Sync → Outcome
timer_fires env p s = elim (lookup p s.timers) [
  | none ↦ nothing s
  | some started ↦
      let fired = record s { timers = delete p s.timers } in
      if not (env.is_data_peer p) || env.is_open_peer p
      then nothing fired
      else if expired env.now started
      then fail p fired
      else begin env p fired
]

-- What `respond` keeps while the signature is made.
pub record Signing : Type 0 where
  pub signing_token : ℕ
  pub signing_identity : Identity
  pub signing_peer : Text
  pub signing_nonce : Text

unfoldable pub respond : Env → Text → IdentityChallenge → Option Signing
respond env p c = elim env.session_token [
  | none ↦ none
  | some token ↦ elim env.identity [
    | none ↦ none
    | some identity ↦ elim (non_empty env.channel_id) [
      | none ↦ none
      | some channel ↦
          if text_eq c.from_peer_id p
          then some (record {
            signing_token = token;
            signing_identity = identity;
            signing_peer = p;
            signing_nonce = c.nonce;
          })
          else none
    ]
  ]
]

-- The session and the identity are the objects from before the wait.
unfoldable pub same_session : Env → ℕ → Identity → Bool
same_session env token identity = elim env.session_token [
  | none ↦ false
  | some t ↦ elim env.identity [ none ↦ false | some i ↦ t == token && i.ref == identity.ref ]
]

unfoldable pub is_pending : Text → Sync → Bool
is_pending p s = elim (lookup p s.pending_challenges) [ none ↦ false | some n ↦ true ]

unfoldable pub respond_signed : Env → Signing → Text → Sync → Outcome
respond_signed env w signature s =
    let p = w.signing_peer in
    let begun = begin env p s in
    if not (same_session env w.signing_token w.signing_identity && env.is_data_peer p)
    then nothing s
    else if not (env.is_open_peer p) && not (is_pending p s) && not (has p s.failed_peers)
    then record {
      sync = begun.sync;
      effects = send_proof p w.signing_nonce signature ∷ begun.effects;
    }
    else record { sync = s; effects = send_proof p w.signing_nonce signature ∷ [] }

-- What `accept` keeps while the signature is checked.
pub record Verifying : Type 0 where
  pub verifying_token : ℕ
  pub verifying_identity : Identity
  pub verifying_peer : Text
  pub expected_nonce : Text
  pub proof : IdentityProof

unfoldable pub accept : Env → Text → IdentityProof → Sync → Option Verifying
accept env p proof s = elim env.session_token [
  | none ↦ none
  | some token ↦ elim env.identity [
    | none ↦ none
    | some identity ↦ elim (non_empty (lookup p s.pending_challenges)) [
      | none ↦ none
      | some expected ↦
          if text_eq proof.from_peer_id p
            && text_eq proof.to_peer_id identity.peer_id
            && text_eq proof.nonce expected
          then some (record {
            verifying_token = token;
            verifying_identity = identity;
            verifying_peer = p;
            expected_nonce = expected;
            proof = proof;
          })
          else none
    ]
  ]
]

-- `this.pendingChallenges.get(remotePeerId) === expectedNonce`
unfoldable pub still_pending : Text → Text → Sync → Bool
still_pending p nonce s = elim (lookup p s.pending_challenges) [
  | none ↦ false
  | some n ↦ text_eq n nonce
]

unfoldable pub accept_verified : Env → Verifying → Bool → Sync → Outcome
accept_verified env w valid s =
    let p = w.verifying_peer in
    if not (
      same_session env w.verifying_token w.verifying_identity && still_pending p w.expected_nonce s)
    then nothing s
    else if not valid
    then fail p s
    else record {
      sync = record (clear p s) {
        pending_challenges = delete p s.pending_challenges;
        failed_peers = TextSet.delete p s.failed_peers;
        peer_capabilities = insert p w.proof.capabilities s.peer_capabilities;
      };
      effects =
          on_capabilities p w.proof.capabilities
          ∷ (if env.is_revoked p then on_revoked p else on_ready p)
          ∷ [];
    }
