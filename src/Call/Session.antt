-- ===== src/Call/Session.antt =====
-- apps/web/src/call/CallSession.ts: `lifecycleId` tells the running session from those before it.
-- apps/web/src/application/chat-routing.ts: which session owns a text channel.
use risk_p2p.Prelude.{
  ℕ, ◌+◌, ◌≤◌, ◌≡◌, ◌≢◌, refl, Bool, true, false, not, ◌&&◌, Option, none, some, List, [], ◌∷◌,
  arith, ◌==◌, length,
}
use risk_p2p.Prelude.Text.{Text, text_eq}

pub record CallSession : Type 0 where
  pub lifecycle_id : ℕ
  pub room_id : Option Text
  pub rendezvous_id : Option Text
  pub peer_id : Option Text

abbrev or_else {ℓ} : {A : Type ℓ} → Option A → A → A
or_else none a = a
or_else (some b) a = b

pub begin : CallSession → Text → Text → Option Text → CallSession × ℕ
begin s room_id peer_id rendezvous_id =
    let id = s.lifecycle_id + 1 in
    (
      record {
        lifecycle_id = id;
        room_id = some room_id;
        rendezvous_id = some (or_else rendezvous_id room_id);
        peer_id = some peer_id;
      },
      id,
    )

pub end : CallSession → CallSession
end s = record {
  lifecycle_id = s.lifecycle_id + 1;
  room_id = none;
  rendezvous_id = none;
  peer_id = none;
}

-- `Boolean(s)` for an optional string: the empty string is false.
unfoldable pub truthy : Option Text → Bool
truthy none = false
truthy (some []) = false
truthy (some (c ∷ cs)) = true

pub is_active : CallSession → ℕ → Bool → Bool
is_active s lifecycle_id resources_ready =
    lifecycle_id == s.lifecycle_id && (truthy s.room_id && resources_ready)

pub data Operation : Type 0 where
  begins : Text → Text → Option Text → Operation
  ends : Operation

pub run : CallSession → List Operation → CallSession
run s [] = s
run s (begins room peer rendezvous ∷ ops) = run (begin s room peer rendezvous).0 ops
run s (ends ∷ ops) = run (end s) ops

run-lifecycle :
    (s : CallSession) (ops : List Operation)
    → (run s ops).lifecycle_id ≡ s.lifecycle_id + length ops
unfolding run begin end
run-lifecycle s [] = omega arith
run-lifecycle s (begins room peer rendezvous ∷ ops) =
    omega (arith, run-lifecycle (begin s room peer rendezvous).0 ops)
run-lifecycle s (ends ∷ ops) = omega (arith, run-lifecycle (end s) ops)

-- A session that has just begun with a room name is active under the id that it was given, and under
-- no id that an earlier one was given; once any operation has followed, its own id is stale for good.
pub begin-is_active :
    (s : CallSession) (room peer : Text) (rendezvous : Option Text) (id : ℕ) (op : Operation)
    (ops : List Operation)
    → room ≢ []
    → id ≤ s.lifecycle_id
    → let (s', own) = begin s room peer rendezvous in
      (is_active s' own true ≡ true)
      × (is_active s' id true ≡ false)
      × (is_active (run s' (op ∷ ops)) own true ≡ false)
unfolding is_active begin truthy
begin-is_active s [] peer rendezvous id op ops named older = absurd (named refl)
begin-is_active s (c ∷ cs) peer rendezvous id op ops named older = (
  ground arith,
  ground arith,
  ground (arith, run-lifecycle (begin s (c ∷ cs) peer rendezvous).0 (op ∷ ops)),
)

pub record CallChatOwnershipInput : Type 0 where
  pub room_id : Option Text
  pub conversation_id : Option Text
  pub call_text_channel_id : Option Text
  pub private_conversation : Bool

-- `a === b` for optional strings
same : Option Text → Option Text → Bool
same (some a) (some b) = text_eq a b
same none none = true
same _ _ = false

pub call_owns_text_conversation : CallChatOwnershipInput → Bool
unfolding truthy same
call_owns_text_conversation input =
    not input.private_conversation
    && truthy input.room_id
    && truthy input.conversation_id
    && same input.conversation_id input.call_text_channel_id
