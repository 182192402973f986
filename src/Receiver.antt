-- ===== src/Receiver.antt =====
-- packages/rtc/src/file-receiver.ts: the files that peers send. `AttachmentTransferReceiver` keeps its
-- transfers in a map to objects that its handlers go on using while they wait, so an object is a
-- number into `cells`. A handler is cut at each `await`: what it does up to there is an `Outcome`,
-- whose `next` holds what it has kept (a `Task`); Receiver.Runs goes on from there. An option `onOffer`
-- or `autoAccept` that is missing counts as one that answers `undefined`, and the sink is one with
-- `listMissingChunks`. How many pieces may be written at once is not modelled.
pub mod Offers
pub mod Pieces
pub mod Endings
pub mod Runs
pub mod Safety
pub mod Completion
use risk_p2p.Prelude.{
  ℕ, ◌+◌, Bool, true, false, not, ◌&&◌, ◌||◌, Option, none, some, List, [], ◌∷◌, ltb, leb, ◌==◌,
  if◌then◌else◌,
}
use risk_p2p.Prelude.Text.{Text, text_eq}
use risk_p2p.Prelude.Map.{Map, lookup, insert, delete}
use risk_p2p.Prelude.Js.{Value, nat}
use risk_p2p.Attachments.Manifest.{ManifestError}
use risk_p2p.Frames.{Frame}
use risk_p2p.Chunks.{AttachmentManifest}

pub data TransferState : Type 0 where
  offered accepted transferring paused verifying completed failed cancelled : TransferState

-- `IncomingTransfer`; its times are left out.
pub record Transfer : Type 0 where
  pub peer_id : Text
  pub transfer_id : Text
  pub manifest : AttachmentManifest
  pub received_chunks : List ℕ
  pub bytes_transferred : ℕ
  pub state : TransferState
  pub retry_count : ℕ
  pub missing_chunks : Option (List ℕ)
  pub processing_chunks : List ℕ

-- `in_flight` holds the id of a transfer once for each piece of it that is being written.
pub record Receiver : Type 0 where
  pub cells : ℕ → Transfer
  pub next_ref : ℕ
  pub transfers : Map ℕ
  pub in_flight : List Text

pub record Options : Type 0 where
  pub max_incoming_transfers : ℕ
  pub max_file_size_bytes : ℕ

-- A `file.offer`; `value` is the manifest as the validator sees it.
pub record Offer : Type 0 where
  pub offer_id : Text
  pub offer_manifest : AttachmentManifest
  pub value : Value

-- A frame that the decoder has passed: its numbers are natural.
pub record Piece : Type 0 where
  pub transfer_id : Text
  pub attachment_id : Text
  pub index : ℕ
  pub offset : ℕ
  pub size : ℕ
  pub hash : Text
  pub payload : List ℕ

abbrev pub to_frame : Piece → Frame
to_frame f = record {
  metadata = record {
    transfer_id = f.transfer_id;
    attachment_id = f.attachment_id;
    index = nat f.index;
    offset = nat f.offset;
    size = nat f.size;
    hash = f.hash;
  };
  payload = f.payload;
}

pub data Reason : Type 0 where
  too_many_transfers file_too_large storage_unavailable : Reason
  bad_manifest : List ManifestError → Reason
  given : Option Text → Reason

pub data Effect : Type 0 where
  send_accept : Text → Text → Effect
  send_reject : Text → Text → Reason → Effect
  send_need : Text → Text → List ℕ → Effect
  send_complete : Text → Text → Text → Effect
  send_error : Text → Text → Effect
  prepare : Text → AttachmentManifest → Effect
  has_chunk : Text → ℕ → Effect
  write_chunk : Text → Piece → Effect
  finalize : Text → Effect
  discard : Text → Effect
  list_missing_chunks : Text → ℕ → Effect
  on_offer : Text → Text → Effect
  auto_accept : Text → Text → Effect
  offer_event : Text → Effect
  progress_event : Text → TransferState → Effect

-- How a wait ends.
pub data Reply : Type 0 where
  done thrown : Reply
  answered : Bool → Reply
  indices : List ℕ → Reply
  digest : Text → Reply

-- Who called `accept`: the user, or the handler of an offer for a peer.
pub data Caller : Type 0 where
  by_user : Caller
  by_offer : Text → Text → Caller

-- The waits, each with the variables that its handler still uses.
pub data Task : Type 0 where
  deferring_reject deferring_discard : Text → Offer → ℕ → Task
  noticing deciding : Text → Text → ℕ → Task
  abandoning : Text → Text → Bool → Task
  preparing listing sending_accept : Caller → ℕ → Task
  granted : Text → Piece → ℕ → Task
  hashing asking writing : Text → Piece → ℕ → ℕ → Task
  ending_piece : Piece → ℕ → Task
  rejecting_sent rejecting_discard : Text → ℕ → Task
  cancelling_wait cancelling_discard : Text → Task
  completing_wait completing_list finalizing completing_sent : Text → ℕ → Text → Task

pub record Outcome : Type 0 where
  pub receiver : Receiver
  pub effects : List Effect
  pub next : Option Task

-- The handler ends, by a return or by an exception, with these effects.
abbrev pub ends : Receiver → List Effect → Outcome
ends r es = record { receiver = r; effects = es; next = none }

abbrev pub waits : Receiver → List Effect → Task → Outcome
waits r es t = record { receiver = r; effects = es; next = some t }

unfoldable pub update : ℕ → Transfer → Receiver → Receiver
update ref t r = record r { cells = λ i. if i == ref then t else r.cells i }

unfoldable pub set_state : ℕ → TransferState → Receiver → Receiver
set_state ref s r = update ref (record (r.cells ref) { state = s }) r

unfoldable pub drop_transfer : Text → Receiver → Receiver
drop_transfer id r = record r { transfers = delete id r.transfers }

-- `this.transfers.get(id) === transfer`
unfoldable pub is_at : Text → ℕ → Receiver → Bool
is_at id ref r = elim (lookup id r.transfers) [ none ↦ false | some i ↦ i == ref ]

abbrev pub is_open : TransferState → Bool
is_open accepted = true
is_open transferring = true
is_open _ = false

-- `isReceiving`
unfoldable pub is_receiving : ℕ → Receiver → Bool
is_receiving ref r = is_at (r.cells ref).transfer_id ref r && is_open (r.cells ref).state

abbrev pub max_missing_chunks_per_request : ℕ
max_missing_chunks_per_request = 2048

unfoldable pub has_index : ℕ → List ℕ → Bool
has_index i [] = false
has_index i (j ∷ js) = j == i || has_index i js

unfoldable pub remove_index : ℕ → List ℕ → List ℕ
remove_index i [] = []
remove_index i (j ∷ js) = let rest = remove_index i js in if j == i then rest else j ∷ rest
