-- ===== src/Chat/History.antt =====
-- apps/web/src/chat/HistoryService.ts: how a peer asks another one, page by page, for the messages and
-- the events of a channel that it does not have, and what the other one answers. A handler that waits
-- for the storage is cut there: `pages` are what the storage has answered, and `Channel` tells what
-- `isActive` and `send` answer, call by call. `acceptChunk`, which checks and stores what comes, and the
-- fields `version` and `type` of the messages are left out. `id` is what `crypto.randomUUID` gives.
pub mod Descent
pub mod Answers
pub mod Delivery
pub mod Requests
use risk_p2p.Prelude.{
  ℕ, zero, suc, ◌+◌, ◌-◌, Bool, true, false, not, ◌&&◌, ◌||◌, Option, none, some, List, [], ◌∷◌,
  ◌++◌, map, ltb, leb, ◌==◌, length, take, drop, keep, if◌then◌else◌,
}
use risk_p2p.Prelude.Text.{Text, text_eq, text_lt}
use risk_p2p.Prelude.TextSet.{has}
use risk_p2p.Prelude.Map.{Map, lookup, insert, delete}
use risk_p2p.Prelude.Js.{Number, is_finite}

abbrev pub history_chunk_messages : ℕ
history_chunk_messages = 8

abbrev pub history_chunk_events : ℕ
history_chunk_events = 16

abbrev pub max_history_ids : ℕ
max_history_ids = 200

-- `LocalChatMessage`, as far as it is sent; `null` and `undefined` are both `none`.
pub record LocalMessage : Type 0 where
  pub id : Text
  pub channel_id : Text
  pub author : Text
  pub content : Text
  pub created_at : Text
  pub author_peer_id : Option Text
  pub signature : Option Text

pub record SignedMessage : Type 0 where
  pub channel_id : Text
  pub id : Text
  pub author_peer_id : Text
  pub author : Text
  pub content : Text
  pub timestamp : Number
  pub signature : Text

pub record SignedEvent : Type 0 where
  pub channel_id : Text
  pub id : Text
  pub target_message_id : Text
  pub actor_peer_id : Text
  pub action : Text
  pub content : Option Text
  pub reference_message_id : Option Text
  pub emoji : Option Text
  pub timestamp : ℕ
  pub signature : Text

pub record HistoryRequest : Type 0 where
  pub channel_id : Text
  pub request_id : Text
  pub known_ids : List Text
  pub known_event_ids : Option (List Text)
  pub message_before : Option Text
  pub message_before_id : Option Text
  pub event_before_timestamp : Option ℕ
  pub event_before_id : Option Text
  pub messages_done : Bool
  pub events_done : Bool

pub record HistoryComplete : Type 0 where
  pub request_id : Text
  pub next_message_before : Option Text
  pub next_message_before_id : Option Text
  pub next_event_before_timestamp : Option ℕ
  pub next_event_before_id : Option Text

pub data HistoryWire : Type 0 where
  chunk : Text → Text → List SignedMessage → List SignedEvent → HistoryWire
  complete : Text → HistoryComplete → HistoryWire

-- `HistoryRequestState`, without its context.
pub record RequestState : Type 0 where
  pub request_id : Text
  pub channel_id : Text
  pub message_before : Option Text
  pub message_before_id : Option Text
  pub event_before_timestamp : Option ℕ
  pub event_before_id : Option Text
  pub messages_done : Bool
  pub events_done : Bool

-- What the context answers: `is_active` and whether `send` reaches a peer, for each call of `send`.
pub record Channel : Type 0 where
  pub is_active : ℕ → Bool
  pub sent : ℕ → Bool

unfoldable pub cursor_advances : Option Text → Option Text → Text → Text → Bool
cursor_advances none previous_id t id = true
cursor_advances (some p) none t id = text_lt t p
cursor_advances (some p) (some i) t id = text_lt t p || text_eq t p && text_lt id i

unfoldable pub event_cursor_advances : Option ℕ → Option Text → ℕ → Text → Bool
event_cursor_advances none previous_id t id = true
event_cursor_advances (some p) none t id = ltb t p
event_cursor_advances (some p) (some i) t id = ltb t p || t == p && text_lt id i

-- The two cursors of a `complete`, if both of their parts are there.
unfoldable pub message_cursor : HistoryComplete → Option (Text × Text)
message_cursor c = elim c.next_message_before [
  | none ↦ none
  | some t ↦ elim c.next_message_before_id [ none ↦ none | some id ↦ some (t, id) ]
]

unfoldable pub event_cursor : HistoryComplete → Option (ℕ × Text)
event_cursor c = elim c.next_event_before_timestamp [
  | none ↦ none
  | some t ↦ elim c.next_event_before_id [ none ↦ none | some id ↦ some (t, id) ]
]

unfoldable pub message_advances : RequestState → Option (Text × Text) → Bool
message_advances st none = true
message_advances st (some (t, id)) = cursor_advances st.message_before st.message_before_id t id

unfoldable pub event_advances : RequestState → Option (ℕ × Text) → Bool
event_advances st none = true
event_advances st (some (t, id)) =
    event_cursor_advances st.event_before_timestamp st.event_before_id t id

unfoldable pub after_messages : Option (Text × Text) → RequestState → RequestState
after_messages none st = record st { messages_done = true }
after_messages (some (t, id)) st = record st {
  message_before = some t;
  message_before_id = some id;
}

unfoldable pub after_events : Option (ℕ × Text) → RequestState → RequestState
after_events none st = record st { events_done = true }
after_events (some (t, id)) st = record st {
  event_before_timestamp = some t;
  event_before_id = some id;
}

-- `next`, the state for which the next page is asked.
unfoldable pub next_state : Text → HistoryComplete → RequestState → RequestState
unfolding after_messages after_events
next_state id c st = record (after_events (event_cursor c) (after_messages (message_cursor c) st)) {
  request_id = id;
}

-- The cursor that a request carries, if neither part is empty.
unfoldable pub cursor_sent : Option Text → Option Text → Bool
cursor_sent (some (a ∷ t)) (some (b ∷ id)) = true
cursor_sent _ _ = false

unfoldable pub event_cursor_sent : Option ℕ → Option Text → Bool
event_cursor_sent (some (suc t)) (some (b ∷ id)) = true
event_cursor_sent _ _ = false

unfoldable pub request_of : RequestState → List Text → Option (List Text) → HistoryRequest
unfolding cursor_sent event_cursor_sent
request_of st known_ids known_event_ids =
    let messages = cursor_sent st.message_before st.message_before_id in
    let events = event_cursor_sent st.event_before_timestamp st.event_before_id in
    record {
      channel_id = st.channel_id;
      request_id = st.request_id;
      known_ids = known_ids;
      known_event_ids = known_event_ids;
      message_before = if messages then st.message_before else none;
      message_before_id = if messages then st.message_before_id else none;
      event_before_timestamp = if events then st.event_before_timestamp else none;
      event_before_id = if events then st.event_before_id else none;
      messages_done = st.messages_done;
      events_done = st.events_done;
    }

-- The requests that are open, and what is sent.
abbrev pub Asked : Type 0
Asked = Map RequestState × List HistoryRequest

unfoldable pub issue_request :
    Channel → Text → RequestState → List Text → Option (List Text) → Map RequestState → Asked
unfolding request_of
issue_request channel peer st known_ids known_event_ids requests =
    let asked = insert peer st requests in
    if not (channel.is_active 0)
    then (delete peer asked, [])
    else if not (channel.sent 0)
    then (delete peer asked, request_of st known_ids known_event_ids ∷ [])
    else (asked, request_of st known_ids known_event_ids ∷ [])

-- `request` behind its wait, which is not begun if a request of the peer is open.
unfoldable pub request :
    Channel → Text → Text → Text → List Text → Option (List Text) → Map RequestState → Asked
unfolding issue_request
request channel peer id channel_id known_ids known_event_ids requests =
    let st : RequestState = record {
      request_id = id;
      channel_id = channel_id;
      message_before = none;
      message_before_id = none;
      event_before_timestamp = none;
      event_before_id = none;
      messages_done = false;
      events_done = elim known_event_ids [ none ↦ true | some ids ↦ false ];
    } in
    if not (channel.is_active 0)
    then (requests, [])
    else issue_request channel peer st known_ids known_event_ids requests

-- `acceptComplete` for the open request `st` of the peer.
unfoldable pub accept_for :
    Channel → Text → Text → HistoryComplete → RequestState → Map RequestState → Asked
unfolding message_advances event_advances next_state issue_request
accept_for channel peer id c st requests =
    let next = next_state id c st in
    if not (text_eq st.request_id c.request_id)
    then (requests, [])
    else if not (message_advances st (message_cursor c)) || not (event_advances st (event_cursor c))
    then (delete peer requests, [])
    else if next.messages_done && next.events_done
    then (delete peer requests, [])
    else issue_request channel peer next [] (if next.events_done then none else some []) requests

unfoldable pub accept_complete : Channel → Text → Text → HistoryComplete → Map RequestState → Asked
accept_complete channel peer id c requests = elim (lookup peer requests) [
  | none ↦ (requests, [])
  | some st ↦ accept_for channel peer id c st requests
]

-- `localToSignedWire`; `parse_date` is `Date.parse`, and an empty text counts as missing.
unfoldable pub local_to_signed_wire : (Text → Number) → LocalMessage → Option SignedMessage
local_to_signed_wire parse_date m = elim m.author_peer_id [
  | none ↦ none
  | some [] ↦ none
  | some (a ∷ as_) ↦ elim m.signature [
    | none ↦ none
    | some [] ↦ none
    | some (b ∷ bs) ↦
        if is_finite (parse_date m.created_at)
        then some (record {
          channel_id = m.channel_id;
          id = m.id;
          author_peer_id = a ∷ as_;
          author = m.author;
          content = m.content;
          timestamp = parse_date m.created_at;
          signature = b ∷ bs;
        })
        else none
  ]
]

unfoldable pub wires_of : (Text → Number) → List LocalMessage → List SignedMessage
unfolding local_to_signed_wire
wires_of parse_date [] = []
wires_of parse_date (m ∷ ms) = elim (local_to_signed_wire parse_date m) [
  | none ↦ wires_of parse_date ms
  | some w ↦ w ∷ wires_of parse_date ms
]

-- `slice(index, index + n)` for each `index` of the loop, with the rounds that are left.
unfoldable pub slices {ℓ} : {A : Type ℓ} → ℕ → ℕ → List A → List (List A)
slices zero n xs = []
slices (suc rounds) n [] = []
slices (suc rounds) n (x ∷ xs) = take n (x ∷ xs) ∷ slices rounds n (drop n (x ∷ xs))

-- The sends of a loop: it stops when the session is over, and behind a send that reaches nobody. The
-- number is that of the sends so far; `none` if the loop has returned from the handler.
unfoldable pub send_each : Channel → ℕ → List HistoryWire → List HistoryWire × Option ℕ
send_each channel k [] = ([], some k)
send_each channel k (w ∷ ws) =
    let later = send_each channel (k + 1) ws in
    if not (channel.is_active k)
    then ([], none)
    else if not (channel.sent k)
    then (w ∷ [], none)
    else (w ∷ later.0, later.1)

unfoldable pub first_of {ℓ} : {A : Type ℓ} → List A → Option A
first_of [] = none
first_of (x ∷ xs) = some x

unfoldable pub complete_of : HistoryRequest → List LocalMessage → List SignedEvent → HistoryComplete
unfolding first_of
complete_of r message_page event_page =
    let m = if length message_page == max_history_ids then first_of message_page else none in
    let e = if length event_page == max_history_ids then first_of event_page else none in
    record {
      request_id = r.request_id;
      next_message_before = elim m [ none ↦ none | some x ↦ some x.created_at ];
      next_message_before_id = elim m [ none ↦ none | some x ↦ some x.id ];
      next_event_before_timestamp = elim e [ none ↦ none | some x ↦ some x.timestamp ];
      next_event_before_id = elim e [ none ↦ none | some x ↦ some x.id ];
    }

-- The chunks of messages, then those of events.
unfoldable pub chunks_of :
    Text → HistoryRequest → List SignedMessage → List SignedEvent → List HistoryWire
unfolding slices
chunks_of channel_id r messages events =
    map (λ ms. chunk channel_id r.request_id ms [])
      (slices (length messages) history_chunk_messages messages)
    ++ map (λ es. chunk channel_id r.request_id [] es)
        (slices (length events) history_chunk_events events)

-- `known` and `knownEvents` are looked up in; the pages are empty where the storage is not asked.
abbrev pub new_messages : (Text → Number) → HistoryRequest → List LocalMessage → List SignedMessage
new_messages parse_date r page = keep (λ m. not (has m.id r.known_ids)) (wires_of parse_date page)

abbrev pub new_events : HistoryRequest → List SignedEvent → List SignedEvent
new_events r page =
    keep (λ e. not (has e.id (elim r.known_event_ids [ none ↦ [] | some ids ↦ ids ]))) page

-- The pages; the storage is not asked for what is done.
unfoldable pub message_page_of : HistoryRequest → List LocalMessage → List LocalMessage
message_page_of r stored = if r.messages_done then [] else stored

unfoldable pub event_page_of : HistoryRequest → List SignedEvent → List SignedEvent
event_page_of r stored = elim r.known_event_ids [
  | none ↦ []
  | some ids ↦ if r.events_done then [] else stored
]

-- The sends of `respond`: the chunks, and the `complete` if their loops have not returned.
unfoldable pub finish_answer :
    Channel → List HistoryWire × Option ℕ → HistoryWire → List HistoryWire
finish_answer channel sends last = elim sends.1 [
  | none ↦ sends.0
  | some k ↦ if channel.is_active k then sends.0 ++ last ∷ [] else sends.0
]

-- `respond` behind its waits.
unfoldable pub respond :
    (Text → Number)
    → Channel
    → Text
    → HistoryRequest
    → List LocalMessage
    → List SignedEvent
    → List HistoryWire
unfolding finish_answer
respond parse_date channel channel_id r stored_messages stored_events =
    let message_page = message_page_of r stored_messages in
    let event_page = event_page_of r stored_events in
    let chunks =
      chunks_of channel_id r (new_messages parse_date r message_page) (new_events r event_page) in
    if not (channel.is_active 0)
    then []
    else finish_answer channel (send_each channel 0 chunks)
        (complete channel_id (complete_of r message_page event_page))
