-- ===== src/Tests/Sending.antt =====
-- A file of two chunks that is sent: the log of the whole transfer, and a transfer that is cancelled.
use risk_p2p.Prelude.{ℕ, zero, suc, ◌≡◌, refl, false, none, some, List, [], ◌∷◌, ◌++◌, take, arith}
use risk_p2p.Prelude.Text.{codes, text_eq}
use risk_p2p.Prelude.Map.{lookup, insert}
use risk_p2p.Chunks.{
  AttachmentManifest, document, iterate_attachment_chunks, iterate_from, frame_at, chunk_at,
  skipped,
}
use risk_p2p.Sender.{
  Sender, Queued, Limits, Action, send_complete, done, update, find_transfer, offer,
  accept_and_start, announce_and_pump, pump, pump_rounds, startable, is_active, start,
}
use risk_p2p.Sender.Transfer.{
  go_opening, go_reading, press, go_passing, send_with_retry, go_sending, go_returned, go_flushing,
}
use risk_p2p.Sender.Runs.{
  System, Event, offers, accepts, cancels, replied, run, step, call, after, go_on, go_on_at,
  go_offering,
}
use risk_p2p.Sender.Pump.{has_work, pump-has_work}
use risk_p2p.Sender.Bounds.{IsBounded, run-IsBounded}
use risk_p2p.Sender.Silence.{IsSilent, cancel-IsSilent}
use risk_p2p.Sender.Unique.{IsSingle, run-IsSingle}
use risk_p2p.Sender.Complete.{IsComplete, gather, no_trace}
use risk_p2p.Sender.Whole.{run-IsComplete}

abbrev sample_limits : Limits
sample_limits = record {
  max_concurrent_transfers = 1;
  high_water_mark_bytes = 10;
  low_water_mark_bytes = 5;
  retry_limit = 2;
  retry_delay_ms = 1;
  waits_for_low = false;
  sha256 = λ bytes. 104 ∷ bytes;
}

abbrev sample_manifest : AttachmentManifest
sample_manifest = record {
  id = codes "file";
  message_id = none;
  channel_id = none;
  sender_peer_id = codes "peer";
  filename = codes "a.txt";
  mime_type = codes "text/plain";
  extension = none;
  kind = document;
  size = 3;
  content_hash = 104 ∷ 7 ∷ 8 ∷ 9 ∷ [];
  chunk_size = 2;
  chunk_count = 2;
  chunk_hashes = none;
  created_at = codes "2026-01-01";
}

abbrev no_transfer : Queued
no_transfer = record {
  transfer_id = [];
  peer_id = [];
  source = [];
  manifest = sample_manifest;
  missing_chunks = none;
  paused = false;
  cancelled = false;
  awaiting_verification = false;
  retry_count = 0;
  bytes_transferred = 0;
}

abbrev new_sender : Sender
new_sender = record { cells = λ i. no_transfer; next_ref = 0; queue = []; active = [] }

abbrev new_system : System
new_system = record { sender = new_sender; tasks = []; log = [] }

-- The wait that was begun last ends.
abbrev ticks : ℕ → List Event
ticks zero = []
ticks (suc n) = replied 0 done 0 ∷ ticks n

abbrev offered_events : List Event
offered_events = offers (codes "t") (codes "peer") (7 ∷ 8 ∷ 9 ∷ []) sample_manifest ∷ ticks 1

abbrev sample_events : List Event
sample_events = offered_events ++ accepts (codes "t") none ∷ ticks 11

-- One chunk, of a transfer that is in the queue.
abbrev queued_transfer : Queued
queued_transfer = record no_transfer {
  transfer_id = codes "t";
  source = 7 ∷ 8 ∷ [];
  manifest = record sample_manifest { size = 2; chunk_count = 1 };
}

abbrev queued_sender : Sender
queued_sender = record { cells = λ i. queued_transfer; next_ref = 1; queue = 0 ∷ []; active = [] }

abbrev queued_events : List Event
queued_events = accepts (codes "t") none ∷ ticks 7

abbrev queued_log : List Action
queued_log =
    (run sample_limits queued_events (record { sender = queued_sender; tasks = []; log = [] })).log

sample_sent : queued_log ≡ take 8 queued_log ++ send_complete 0 ∷ []
unfolding run step call after go_on go_on_at go_offering offer update accept_and_start find_transfer
    announce_and_pump pump pump_rounds startable is_active start go_opening go_reading press
    go_passing send_with_retry go_sending go_returned go_flushing iterate_attachment_chunks
    iterate_from frame_at chunk_at skipped lookup insert text_eq
sample_sent = refl

run-IsComplete_example :
    IsComplete sample_limits 0 (gather sample_limits 0 no_trace (take 8 queued_log))
run-IsComplete_example =
    run-IsComplete sample_limits 0 queued_events queued_sender (take 8 queued_log) [] refl
      sample_sent

run-IsBounded_example : IsBounded sample_limits (run sample_limits sample_events new_system).sender
run-IsBounded_example = run-IsBounded sample_limits sample_events new_system (omega arith)

new-IsSingle : IsSingle sample_limits (codes "t") new_sender []
new-IsSingle = record { below = refl; known = refl; single = omega arith }

run-IsSingle_example :
    IsSingle sample_limits
      (codes "t")
      (run sample_limits sample_events new_system).sender
      (run sample_limits sample_events new_system).tasks
run-IsSingle_example = run-IsSingle sample_limits (codes "t") sample_events new_system new-IsSingle

pump-has_work_example : has_work sample_limits (pump sample_limits new_sender).sender ≡ false
pump-has_work_example = pump-has_work sample_limits new_sender

abbrev offered_system : System
offered_system = run sample_limits offered_events new_system

offered_found : find_transfer (codes "t") offered_system.sender ≡ some 0
unfolding run step call after go_on go_on_at go_offering offer update find_transfer text_eq
offered_found = refl

offered_there : offered_system.sender.next_ref ≡ 1
unfolding run step call after go_on go_on_at go_offering offer update
offered_there = refl

cancel-IsSilent_example :
    IsSilent sample_limits 0
      (step sample_limits (cancels (codes "t")) offered_system).log
      (run sample_limits (cancels (codes "t") ∷ accepts (codes "t") none ∷ ticks 3) offered_system)
cancel-IsSilent_example =
    cancel-IsSilent sample_limits 0 (codes "t") (accepts (codes "t") none ∷ ticks 3) offered_system
      offered_found (rw offered_there (omega arith))
