-- ===== src/Chat/History/Requests.antt =====
-- apps/web/src/chat/HistoryService.ts: the requests that are sent, one page after the other.
use risk_p2p.Prelude.{
  ℕ, zero, suc, Bool, true, false, ◌&&◌, Option, none, some, List, [], ◌∷◌, ◌++◌, all,
}
use risk_p2p.Prelude.Text.{Text}
use risk_p2p.Prelude.Map.{Map}
use risk_p2p.Chat.History.{
  HistoryComplete, HistoryRequest, RequestState, Channel, message_cursor, event_cursor,
  after_messages, after_events, request_of, accept_complete,
}
use risk_p2p.Chat.History.Descent.{descends}

-- What a request asks for: its cursors, and what is told already.
abbrev pub asks : HistoryRequest → RequestState
asks r = record {
  request_id = r.request_id;
  channel_id = r.channel_id;
  message_before = r.message_before;
  message_before_id = r.message_before_id;
  event_before_timestamp = r.event_before_timestamp;
  event_before_id = r.event_before_id;
  messages_done = r.messages_done;
  events_done = r.events_done;
}

abbrev pub filled : Text → Bool
filled [] = false
filled (c ∷ t) = true

abbrev pub positive : ℕ → Bool
positive zero = false
positive (suc n) = true

-- The parser (`validOptionalHistoryCursor` and `validOptionalEventCursor` of MessageProtocol.ts) lets
-- only such cursors through: no part is empty or 0.
abbrev pub full_message : Option (Text × Text) → Bool
full_message none = true
full_message (some (t, id)) = filled t && filled id

abbrev pub full_event : Option (ℕ × Text) → Bool
full_event none = true
full_event (some (t, id)) = positive t && filled id

abbrev pub is_full : HistoryComplete → Bool
is_full c = full_message (message_cursor c) && full_event (event_cursor c)

-- The requests that the answers of a peer call forth, each answer with what the context tells behind
-- it and the id of the next request.
unfoldable pub ask_all :
    Text → List (Channel × Text × HistoryComplete) → Map RequestState → List HistoryRequest
ask_all peer [] requests = []
ask_all peer ((channel, id, c) ∷ cs) requests =
    let answer = accept_complete channel peer id c requests in answer.1 ++ ask_all peer cs answer.0

-- Every request asks for what stands behind `st` and behind every request before it.
abbrev pub in_descent : RequestState → List HistoryRequest → Bool
in_descent st [] = true
in_descent st (r ∷ rs) =
    descends st (asks r) && all (λ q. descends st (asks q)) rs && in_descent (asks r) rs

-- A request tells of its state what `descends` reads.
module _ (id : Text) (st x : RequestState) (known : List Text) (events : Option (List Text)) where
  abbrev next : Option (Text × Text) → Option (ℕ × Text) → RequestState
  next a b = record (after_events b (after_messages a st)) { request_id = id }

  abbrev sent : Option (Text × Text) → Option (ℕ × Text) → RequestState
  sent a b = asks (request_of (next a b) known events)
