-- ===== src/Signaling/Accepted.antt =====
-- What the parsers of apps/web/src/services/signaling/validation.ts accept.
use risk_p2p.Prelude.{◌+◌, ◌-◌, ◌≡◌, refl, ap, ◌∙◌, Bool, true, false, not, ◌&&◌, arith, &&_iff}
use risk_p2p.Prelude.Text.{Text, text_eq, text_eq_iff, codes}
use risk_p2p.Prelude.Js.{Number, below, above, is_finite, Value, num, str, obj}
use risk_p2p.Signaling.{
  Clock, valid_base, parse_offer, parse_answer, parse_ice_candidate, parse_peer_state, is_uuid,
  is_timely, string_that, number_that, field, max_age_ms, max_future_ms,
}

string_lem :
    (p : Text → Bool) (v : Value) → string_that p v ≡ true → (s : Text) × (v ≡ str s) × (p s ≡ true)
string_lem p (str s) h = (s, refl, h)
string_lem p (Value.undefined) h = cc
string_lem p (Value.null) h = cc
string_lem p (Value.bool b) h = cc
string_lem p (num n) h = cc
string_lem p (Value.arr xs) h = cc
string_lem p (obj fs) h = cc

number_lem :
    (p : Number → Bool) (v : Value)
    → number_that p v ≡ true
    → (n : Number) × (v ≡ num n) × (p n ≡ true)
number_lem p (num n) h = (n, refl, h)
number_lem p (str s) h = cc
number_lem p (Value.undefined) h = cc
number_lem p (Value.null) h = cc
number_lem p (Value.bool b) h = cc
number_lem p (Value.arr xs) h = cc
number_lem p (obj fs) h = cc

-- What every signal shows: its type, and a time of at most two minutes ago and at most half a minute
-- ahead.
pub record IsSignal (clock : Clock) (type : Text) (v : Value) : Type 0 where
  pub has_type : field (codes "type") v ≡ str type
  pub sender : Text
  pub from_sender : field (codes "fromPeerId") v ≡ str sender
  pub sender_uuid : is_uuid sender ≡ true
  pub time : Number
  pub at_time : field (codes "timestamp") v ≡ num time
  pub finite : is_finite time ≡ true
  pub not_older : below time (clock.now - max_age_ms) ≡ false
  pub not_ahead : above time (clock.now + max_future_ms) ≡ false

pub data SignalType : Type 0 where
  offer answer ice_candidate peer_state : SignalType

abbrev pub type_name : SignalType → Text
type_name offer = codes "webrtc.offer"
type_name answer = codes "webrtc.answer"
type_name ice_candidate = codes "webrtc.ice-candidate"
type_name peer_state = codes "peer.state"

and_left : (a b : Bool) → (a && b) ≡ true → a ≡ true
and_left a b h = ((&&_iff a b).0 h).0

and_right : (a b : Bool) → (a && b) ≡ true → b ≡ true
and_right a b h = ((&&_iff a b).0 h).1

negated_lem : (b : Bool) → not b ≡ true → b ≡ false
negated_lem b h = ground arith

module _ (clock : Clock) where
  base-IsSignal : (type : Text) (v : Value) → valid_base clock type v ≡ true → IsSignal clock type v
  unfolding valid_base is_timely
  base-IsSignal type v h =
      let to_time = and_left _ _ h in
      let to_peer = and_left _ _ (and_left _ _ (and_left _ _ to_time)) in
      let to_type = and_left _ _ (and_left _ _ to_peer) in
      let (name, is_name, same) =
        string_lem (λ s. text_eq s type) (field (codes "type") v) (and_right _ _ to_type) in
      let (sender, is_sender, uuid) =
        string_lem is_uuid (field (codes "fromPeerId") v) (and_right _ _ to_peer) in
      let (time, is_time, timely) =
        number_lem (is_timely clock.now) (field (codes "timestamp") v) (and_right _ _ to_time) in
      let bounds = and_left _ _ timely in
      record {
        has_type = is_name ∙ ap str ((text_eq_iff name type).0 same);
        sender = sender;
        from_sender = is_sender;
        sender_uuid = uuid;
        time = time;
        at_time = is_time;
        finite = and_left _ _ bounds;
        not_older = negated_lem _ (and_right _ _ bounds);
        not_ahead = negated_lem _ (and_right _ _ timely);
      }

  -- The parser of each type of signal, as the source pairs them.
  abbrev pub parse : SignalType → Value → Bool
  parse offer = parse_offer clock
  parse answer = parse_answer clock
  parse ice_candidate = parse_ice_candidate clock
  parse peer_state = parse_peer_state clock

  -- What a parser accepts carries the type of its signals, the UUID of a sender, and a finite time that
  -- is not older than two minutes and at most half a minute ahead of the clock.
  pub parse-IsSignal :
      (type : SignalType) (v : Value) → parse type v ≡ true → IsSignal clock (type_name type) v
  unfolding parse_offer parse_answer parse_ice_candidate parse_peer_state
  parse-IsSignal offer v h = base-IsSignal (type_name offer) v (and_left _ _ (and_left _ _ h))
  parse-IsSignal answer v h = base-IsSignal (type_name answer) v (and_left _ _ (and_left _ _ h))
  parse-IsSignal ice_candidate v h =
      base-IsSignal (type_name ice_candidate) v (and_left _ _ (and_left _ _ h))
  parse-IsSignal peer_state v h = base-IsSignal (type_name peer_state) v (and_left _ _ h)
