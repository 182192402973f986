-- ===== src/Tests/History.antt =====
-- Two pages of a history: what is answered, and what is asked for next.
use risk_p2p.Prelude.{◌≡◌, refl, true, false, none, some, List, [], ◌∷◌, ◌++◌, map}
use risk_p2p.Prelude.Text.{Text, codes, text_eq}
use risk_p2p.Prelude.Map.{Map, lookup, insert}
use risk_p2p.Prelude.Js.{Number, nat}
use risk_p2p.Chat.History.{
  LocalMessage, SignedEvent, HistoryRequest, HistoryComplete, HistoryWire, RequestState, Channel,
  respond, accept_complete, accept_for, message_cursor, cursor_advances, event_cursor,
}
use risk_p2p.Chat.History.Requests.{ask_all}
use risk_p2p.Chat.History.Answers.{open_channel}
use risk_p2p.Chat.History.Delivery.{delivered_in_turn, respond-rest}

abbrev sample_request : HistoryRequest
sample_request = record {
  channel_id = codes "c";
  request_id = codes "r1";
  known_ids = codes "m1" ∷ [];
  known_event_ids = none;
  message_before = none;
  message_before_id = none;
  event_before_timestamp = none;
  event_before_id = none;
  messages_done = false;
  events_done = true;
}

abbrev sample_message : Text → LocalMessage
sample_message id = record {
  id = id;
  channel_id = codes "c";
  author = codes "a";
  content = codes "hi";
  created_at = codes "2026-01-01";
  author_peer_id = some (codes "p");
  signature = some (codes "s");
}

abbrev sample_page : List LocalMessage
sample_page = sample_message (codes "m1") ∷ sample_message (codes "m2") ∷ []

abbrev sample_date : Text → Number
sample_date s = nat 5

abbrev broken_channel : Channel
broken_channel = record { is_active = λ k. true; sent = λ k. false }

abbrev no_events : List SignedEvent
no_events = []

respond-rest_example :
    (delivered_in_turn broken_channel
        (respond sample_date broken_channel (codes "c") sample_request sample_page no_events)
      ≡ true)
    × (rest : List HistoryWire) × (respond sample_date broken_channel
            (codes "c")
            sample_request
            sample_page
            no_events
          ++ rest
        ≡ respond sample_date open_channel (codes "c") sample_request sample_page no_events)
respond-rest_example =
    respond-rest sample_date broken_channel (codes "c") sample_request sample_page no_events

abbrev first_state : RequestState
first_state = record {
  request_id = codes "r1";
  channel_id = codes "c";
  message_before = none;
  message_before_id = none;
  event_before_timestamp = none;
  event_before_id = none;
  messages_done = false;
  events_done = true;
}

abbrev sample_complete : HistoryComplete
sample_complete = record {
  request_id = codes "r1";
  next_message_before = some (codes "2026-01-01");
  next_message_before_id = some (codes "m1");
  next_event_before_timestamp = none;
  next_event_before_id = none;
}

abbrev first_requests : Map RequestState
first_requests = (codes "p", first_state) ∷ []

-- The last page: nothing more to ask for.
abbrev last_complete : HistoryComplete
last_complete = record sample_complete {
  request_id = codes "r2";
  next_message_before = none;
  next_message_before_id = none;
}

abbrev sample_answers : List (Channel × Text × HistoryComplete)
sample_answers =
    (open_channel, codes "r2", sample_complete) ∷ (open_channel, codes "r3", last_complete) ∷ []

-- One request is sent, for the second page.
second_asked :
    map (λ r. r.message_before) (ask_all (codes "p") sample_answers first_requests)
    ≡ some (codes "2026-01-01") ∷ []
unfolding lookup ask_all accept_complete accept_for text_eq message_cursor cursor_advances
    event_cursor insert
second_asked = refl
