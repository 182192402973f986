-- ===== src/Signaling.antt =====
-- apps/web/src/services/signaling/validation.ts: which values count as signals. A parser gives the
-- value or `null`; here it is the test. What the runtime supplies is `Clock`: `now` is a reading of
-- `Date.now()` of at least two minutes, and `byte_size` the bytes of the JSON text of a value, `none`
-- where `JSON.stringify` throws.
pub mod Accepted
use risk_p2p.Prelude.{
  ℕ, zero, suc, ◌+◌, ◌-◌, Bool, true, false, not, ◌&&◌, ◌||◌, Option, none, some, List, [], ◌∷◌,
  ◌++◌, ltb, leb, ◌==◌, length, all, if◌then◌else◌,
}
use risk_p2p.Prelude.Text.{Text, text_eq, codes}
use risk_p2p.Prelude.Js.{
  Number, nat, below, above, equals, is_finite, Value, undefined, null, bool, num, str, arr, obj,
  Fields, get,
}

abbrev pub max_age_ms : ℕ
max_age_ms = 120000

abbrev pub max_future_ms : ℕ
max_future_ms = 30000

abbrev pub max_envelope_bytes : ℕ
max_envelope_bytes = 65536

pub record Clock : Type 0 where
  pub now : ℕ
  pub byte_size : Value → Option ℕ

abbrev between : ℕ → ℕ → ℕ → Bool
between low high c = leb low c && leb c high

-- [0-9a-f], and with either case
unfoldable pub lower_hex : ℕ → Bool
lower_hex c = between 48 57 c || between 97 102 c

unfoldable pub hex : ℕ → Bool
unfolding lower_hex
hex c = lower_hex c || between 65 70 c

-- [1-8] and [89ab]
unfoldable pub uuid_version : ℕ → Bool
uuid_version c = between 49 56 c

unfoldable pub uuid_variant : ℕ → Bool
uuid_variant c = between 56 57 c || between 97 98 c || between 65 66 c

unfoldable pub dash : ℕ → Bool
dash c = c == 45

abbrev times : ℕ → (ℕ → Bool) → List (ℕ → Bool)
times zero p = []
times (suc n) p = p ∷ times n p

-- A character for each test.
unfoldable pub matches : List (ℕ → Bool) → Text → Bool
matches [] [] = true
matches (p ∷ ps) (c ∷ cs) = p c && matches ps cs
matches _ _ = false

-- `UUID`
unfoldable pub is_uuid : Text → Bool
is_uuid s =
    matches
      (times 8 hex
        ++ dash ∷ times 4 hex
        ++ dash ∷ uuid_version ∷ times 3 hex
        ++ dash ∷ uuid_variant ∷ times 3 hex
        ++ dash ∷ times 12 hex)
      s

-- `ROOM`
unfoldable pub is_room : Text → Bool
is_room s = length s == 64 && all lower_hex s

abbrev pub is_record : Value → Bool
is_record (obj fs) = true
is_record _ = false

-- The fields of an object; none of other values.
abbrev pub fields_of : Value → Fields
fields_of (obj fs) = fs
fields_of _ = Fields.end

abbrev pub string_that : (Text → Bool) → Value → Bool
string_that p (str s) = p s
string_that p _ = false

abbrev pub number_that : (Number → Bool) → Value → Bool
number_that p (num n) = p n
number_that p _ = false

-- `x === undefined || p(x)`, and with `null` let through as well
abbrev pub absent_or : (Value → Bool) → Value → Bool
absent_or p undefined = true
absent_or p v = p v

abbrev pub null_or : (Value → Bool) → Value → Bool
null_or p undefined = true
null_or p null = true
null_or p v = p v

abbrev pub is_boolean : Value → Bool
is_boolean (bool b) = true
is_boolean _ = false

abbrev any_text : Text → Bool
any_text s = true

-- A time that is not older than two minutes and not more than half a minute ahead.
unfoldable pub is_timely : ℕ → Number → Bool
is_timely now t =
    is_finite t && not (below t (now - max_age_ms)) && not (above t (now + max_future_ms))

abbrev pub field : Text → Value → Value
field k v = get k (fields_of v)

unfoldable pub valid_description : Text → Value → Bool
valid_description type v =
    is_record v
    && string_that (λ s. text_eq s type) (field (codes "type") v)
    && string_that (λ s. ltb 0 (length s) && leb (length s) 60000) (field (codes "sdp") v)

abbrev pub payload_of : Value → Value
payload_of v = field (codes "payload") v

-- `typeof value.targetPeerId === "string"`
unfoldable pub is_targeted : Value → Bool
is_targeted v = string_that any_text (field (codes "targetPeerId") v)

-- `Number.isInteger(x) && Number(x) >= 0`
abbrev is_natural : Number → Bool
is_natural (nat n) = true
is_natural _ = false

unfoldable pub valid_candidate : Value → Bool
valid_candidate v =
    is_record v
    && string_that (λ s. leb (length s) 4096) (field (codes "candidate") v)
    && null_or (string_that (λ s. leb (length s) 256)) (field (codes "sdpMid") v)
    && null_or (number_that is_natural) (field (codes "sdpMLineIndex") v)
    && null_or (string_that (λ s. leb (length s) 256)) (field (codes "usernameFragment") v)

unfoldable pub valid_state : Value → Bool
valid_state v =
    is_record v
    && is_boolean (field (codes "microphone") v)
    && is_boolean (field (codes "camera") v)
    && is_boolean (field (codes "screenShare") v)
    && absent_or (string_that any_text) (field (codes "cameraStreamId") v)
    && absent_or (string_that any_text) (field (codes "screenStreamId") v)
    && absent_or is_boolean (field (codes "screenAudio") v)

-- `isValidPeer`
unfoldable pub is_valid_peer : Value → Bool
is_valid_peer v =
    is_record v
    && string_that is_uuid (field (codes "peerId") v)
    && number_that is_finite (field (codes "joinedAt") v)
    && absent_or (string_that (λ s. leb (length s) 32)) (field (codes "clientVersion") v)

module _ (clock : Clock) where
  unfoldable pub small_enough : Value → Bool
  small_enough v = elim (clock.byte_size v) [ none ↦ false | some n ↦ leb n max_envelope_bytes ]

  unfoldable pub valid_base : Text → Value → Bool
  valid_base expected v =
      is_record v
      && small_enough v
      && number_that (λ n. equals n 1) (field (codes "version") v)
      && string_that (λ s. text_eq s expected) (field (codes "type") v)
      && string_that is_room (field (codes "roomId") v)
      && string_that is_uuid (field (codes "fromPeerId") v)
      && absent_or (string_that is_uuid) (field (codes "targetPeerId") v)
      && string_that is_uuid (field (codes "messageId") v)
      && number_that (is_timely clock.now) (field (codes "timestamp") v)
      && is_record (field (codes "payload") v)

  unfoldable pub parse_offer : Value → Bool
  parse_offer v =
      valid_base (codes "webrtc.offer") v
      && is_targeted v
      && valid_description (codes "offer") (field (codes "sdp") (payload_of v))

  unfoldable pub parse_answer : Value → Bool
  parse_answer v =
      valid_base (codes "webrtc.answer") v
      && is_targeted v
      && valid_description (codes "answer") (field (codes "sdp") (payload_of v))

  unfoldable pub parse_ice_candidate : Value → Bool
  parse_ice_candidate v =
      valid_base (codes "webrtc.ice-candidate") v
      && is_targeted v
      && valid_candidate (field (codes "candidate") (payload_of v))

  unfoldable pub parse_peer_state : Value → Bool
  parse_peer_state v =
      valid_base (codes "peer.state") v && valid_state (field (codes "state") (payload_of v))
