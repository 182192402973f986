-- ===== src/Tests/Files.antt =====
-- A file that is received: one piece is written, and the file is complete.
use risk_p2p.Prelude.{◌≡◌, refl, true, none, some, List, [], ◌∷◌, get_elem?, any}
use risk_p2p.Prelude.Text.{codes, text_eq}
use risk_p2p.Prelude.Map.{lookup}
use risk_p2p.Frames.{bad_natural}
use risk_p2p.Prelude.Js.{equals, is_safe, below}
use risk_p2p.Chunks.{AttachmentManifest, document, verify_attachment_chunk, announced_hash}
use risk_p2p.Receiver.{
  Transfer, Receiver, Piece, done, digest, transferring, verifying, to_frame, write_chunk,
  finalizing, update, is_at, is_receiving, has_index,
}
use risk_p2p.Receiver.Pieces.{handle_chunk, go_granted, go_hashing, announces_other}
use risk_p2p.Receiver.Endings.{go_finalizing}
use risk_p2p.Receiver.Runs.{Setting, Event, piece, replied, run, step, after, go_on_at, go_on}
use risk_p2p.Receiver.Safety.{run_verified}
use risk_p2p.Receiver.Completion.{is_completion, Completed, go_on-Completed}

abbrev sample_setting : Setting
sample_setting = record {
  host = record { lower = λ s. s; is_date = λ s. true };
  options = record { max_incoming_transfers = 4; max_file_size_bytes = 1000 };
  sha256 = λ bytes. 104 ∷ bytes;
  lower = λ s. s;
}

abbrev sample_manifest : AttachmentManifest
sample_manifest = record {
  id = codes "file";
  message_id = none;
  channel_id = none;
  sender_peer_id = codes "peer";
  filename = codes "a.txt";
  mime_type = codes "text/plain";
  extension = none;
  kind = document;
  size = 2;
  content_hash = 104 ∷ 7 ∷ 8 ∷ [];
  chunk_size = 2;
  chunk_count = 1;
  chunk_hashes = none;
  created_at = codes "2026-01-01";
}

abbrev sample_transfer : Transfer
sample_transfer = record {
  peer_id = codes "peer";
  transfer_id = codes "transfer";
  manifest = sample_manifest;
  received_chunks = [];
  bytes_transferred = 0;
  state = transferring;
  retry_count = 0;
  missing_chunks = some (0 ∷ []);
  processing_chunks = [];
}

abbrev sample_receiver : Receiver
sample_receiver = record {
  cells = λ i. sample_transfer;
  next_ref = 1;
  transfers = (codes "transfer", 0) ∷ [];
  in_flight = [];
}

abbrev sample_piece : Piece
sample_piece = record {
  transfer_id = codes "transfer";
  attachment_id = codes "file";
  index = 0;
  offset = 0;
  size = 2;
  hash = 104 ∷ 7 ∷ 8 ∷ [];
  payload = 7 ∷ 8 ∷ [];
}

abbrev sample_events : List Event
sample_events = piece (codes "peer") sample_piece ∷ replied 0 done ∷ replied 0 done ∷ []

sample_written :
    get_elem?
      (run sample_setting sample_events
        (record { receiver = sample_receiver; tasks = []; log = [] })).log
      0
    ≡ some (write_chunk (codes "transfer") sample_piece)
unfolding run step after go_on_at go_on handle_chunk go_granted go_hashing announces_other
    announced_hash verify_attachment_chunk bad_natural equals is_safe below lookup text_eq update
    is_at is_receiving has_index
sample_written = refl

run_verified_example :
    verify_attachment_chunk sample_setting.sha256 sample_setting.lower (to_frame sample_piece)
    ≡ true
run_verified_example =
    run_verified sample_setting sample_events sample_receiver 0 (codes "transfer") sample_piece
      sample_written

-- All pieces are there, and the sink has put the file together.
abbrev checking_receiver : Receiver
checking_receiver = record sample_receiver {
  cells = λ i. record sample_transfer { state = verifying };
}

sample_completed :
    any
      (is_completion sample_setting)
      (go_on sample_setting
        (finalizing (codes "peer") 0 (104 ∷ 7 ∷ 8 ∷ []))
        (digest (104 ∷ 7 ∷ 8 ∷ []))
        checking_receiver).effects
    ≡ true
unfolding go_on go_finalizing is_at lookup text_eq
sample_completed = refl

go_on-Completed_example :
    Completed sample_setting
      (finalizing (codes "peer") 0 (104 ∷ 7 ∷ 8 ∷ []))
      (digest (104 ∷ 7 ∷ 8 ∷ []))
      checking_receiver
go_on-Completed_example =
    go_on-Completed sample_setting (finalizing (codes "peer") 0 (104 ∷ 7 ∷ 8 ∷ []))
      (digest (104 ∷ 7 ∷ 8 ∷ [])) checking_receiver sample_completed
