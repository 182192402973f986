-- ===== src/Chat/History/Answers.antt =====
-- apps/web/src/chat/HistoryService.ts: what `respond` sends of a page.
use risk_p2p.Prelude.{
  ℕ, ◌+◌, ◌≡◌, ap, Bool, true, ◌&&◌, some, List, [], ◌∷◌, ◌++◌, arith, leb, length,
}
use risk_p2p.Prelude.Text.{Text}
use risk_p2p.Chat.History.{
  SignedMessage, SignedEvent, HistoryWire, chunk, complete, Channel, send_each,
  history_chunk_messages, history_chunk_events,
}

-- The messages and the events of what is sent, in their order.
unfoldable pub messages_of : List HistoryWire → List SignedMessage
messages_of [] = []
messages_of (chunk channel_id id ms es ∷ ws) = ms ++ messages_of ws
messages_of (complete channel_id c ∷ ws) = messages_of ws

unfoldable pub events_of : List HistoryWire → List SignedEvent
events_of [] = []
events_of (chunk channel_id id ms es ∷ ws) = es ++ events_of ws
events_of (complete channel_id c ∷ ws) = events_of ws

-- Whether a chunk has at most 8 messages and at most 16 events.
abbrev pub within_limits : HistoryWire → Bool
within_limits (chunk channel_id id ms es) =
    leb (length ms) history_chunk_messages && leb (length es) history_chunk_events
within_limits (complete channel_id c) = true

-- Every send reaches the peer, and the session lasts.
abbrev pub open_channel : Channel
open_channel = record { is_active = λ k. true; sent = λ k. true }

pub send_each-open :
    (k : ℕ) (ws : List HistoryWire) → send_each open_channel k ws ≡ (ws, some (k + length ws))
unfolding send_each
send_each-open k [] = ap (λ n. ([], some n)) (omega arith)
send_each-open k (w ∷ ws) =
    rw (send_each-open (k + 1) ws) (ap (λ n. (w ∷ ws, some n)) (omega arith))
