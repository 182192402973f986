-- ===== src/Receiver/Pieces.antt =====
-- packages/rtc/src/file-receiver.ts: `handleChunk` and `processChunk`, cut at each `await`.
use risk_p2p.Prelude.{
  ℕ, ◌+◌, Bool, true, false, not, ◌||◌, Option, none, some, List, [], ◌∷◌, ltb, if◌then◌else◌,
}
use risk_p2p.Prelude.Text.{Text, text_eq}
use risk_p2p.Prelude.Map.{lookup}
use risk_p2p.Chunks.{AttachmentManifest, announced_hash, verify_attachment_chunk}
use risk_p2p.Receiver.{
  TransferState, transferring, paused, cancelled, Transfer, Receiver, Piece, to_frame, send_need,
  has_chunk, write_chunk, discard, progress_event, Reply, thrown, answered, granted, hashing,
  asking, writing, ending_piece, Outcome, ends, waits, update, is_at, is_open, is_receiving,
  has_index, remove_index,
}

unfoldable pub handle_chunk : Text → Piece → Receiver → Outcome
handle_chunk peer f r = elim (lookup f.transfer_id r.transfers) [
  | none ↦ ends r []
  | some ref ↦
      let t = r.cells ref in
      if not (text_eq t.peer_id peer)
      then ends r []
      else if not (is_open t.state)
      then ends r []
      else if not (text_eq f.attachment_id t.manifest.id)
      then ends r []
      else if not (ltb f.index t.manifest.chunk_count)
      then ends r []
      else if has_index f.index t.received_chunks || has_index f.index t.processing_chunks
      then ends r []
      else waits
          (record (update ref (record t { processing_chunks = f.index ∷ t.processing_chunks }) r) {
            in_flight = f.transfer_id ∷ r.in_flight;
          })
          [] (granted peer f ref)
]

-- One occurrence less.
unfoldable pub remove_one : Text → List Text → List Text
remove_one id [] = []
remove_one id (x ∷ xs) = let rest = remove_one id xs in if text_eq x id then xs else x ∷ rest

-- The `finally` of `handleChunk`, on the transfer that it began with.
unfoldable pub end_piece : Piece → ℕ → Receiver → Receiver
end_piece f ref r =
    let t = r.cells ref in
    record (update ref (record t { processing_chunks = remove_index f.index t.processing_chunks })
      r) { in_flight = remove_one f.transfer_id r.in_flight }

unfoldable pub go_ending_piece : Piece → ℕ → Reply → Receiver → Outcome
go_ending_piece f ref reply r = ends (end_piece f ref r) []

-- A piece that is wrong is asked for again.
unfoldable pub refuse_piece : Text → Piece → ℕ → ℕ → Receiver → Outcome
refuse_piece peer f ref at r =
    let t = r.cells at in
    waits (update at (record t { retry_count = t.retry_count + 1 }) r)
      (send_need peer t.transfer_id (f.index ∷ []) ∷ []) (ending_piece f ref)

unfoldable pub mark_received : Piece → ℕ → Receiver → Receiver
mark_received f at r =
    let t = r.cells at in update at (record t { received_chunks = f.index ∷ t.received_chunks }) r

-- Whether the manifest announces another hash for the piece; an empty one does not count.
unfoldable pub announces_other : (Text → Text) → Piece → AttachmentManifest → Bool
announces_other lower f m = elim (announced_hash m.chunk_hashes f.index) [
  | none ↦ false
  | some [] ↦ false
  | some (c ∷ cs) ↦ not (text_eq (lower (c ∷ cs)) (lower f.hash))
]

-- `sha256` and `lower` are the digest of `crypto.subtle` in hex and `toLowerCase`.
module _ (sha256 : List ℕ → Text) (lower : Text → Text) where
  unfoldable pub go_granted : Text → Piece → ℕ → Reply → Receiver → Outcome
  go_granted peer f ref reply r = elim (lookup f.transfer_id r.transfers) [
    | none ↦ ends (end_piece f ref r) []
    | some at ↦
        let t = r.cells at in
        if not (text_eq t.peer_id peer) || not (is_receiving at r)
        then ends (end_piece f ref r) []
        else if announces_other lower f t.manifest
        then refuse_piece peer f ref at r
        else waits r [] (hashing peer f ref at)
  ]

  unfoldable pub go_hashing : Text → Piece → ℕ → ℕ → Reply → Receiver → Outcome
  go_hashing peer f ref at reply r =
      let t = r.cells at in
      let known = ends (end_piece f ref (mark_received f at r)) [] in
      if not (verify_attachment_chunk sha256 lower (to_frame f))
      then refuse_piece peer f ref at r
      else if not (is_receiving at r)
      then ends (end_piece f ref r) []
      else elim t.missing_chunks [
        | none ↦ waits r (has_chunk f.transfer_id f.index ∷ []) (asking peer f ref at)
        | some missing ↦
            if has_index f.index missing
            then waits r (write_chunk f.transfer_id f ∷ []) (writing peer f ref at)
            else known
      ]

unfoldable pub go_asking : Text → Piece → ℕ → ℕ → Reply → Receiver → Outcome
go_asking peer f ref at thrown r = ends (end_piece f ref r) []
go_asking peer f ref at (answered true) r =
    if is_receiving at r
    then ends (end_piece f ref (mark_received f at r)) []
    else ends (end_piece f ref r) []
go_asking peer f ref at _ r =
    if is_receiving at r
    then waits r (write_chunk f.transfer_id f ∷ []) (writing peer f ref at)
    else ends (end_piece f ref r) []

abbrev is_cancelled : TransferState → Bool
is_cancelled cancelled = true
is_cancelled _ = false

-- A transfer that is paused stays so.
abbrev resumed : TransferState → TransferState
resumed paused = paused
resumed _ = transferring

abbrev without_index : ℕ → Option (List ℕ) → Option (List ℕ)
without_index i none = none
without_index i (some js) = some (remove_index i js)

unfoldable pub go_writing : Text → Piece → ℕ → ℕ → Reply → Receiver → Outcome
go_writing peer f ref at thrown r = ends (end_piece f ref r) []
go_writing peer f ref at _ r =
    let t = r.cells at in
    let stored : Transfer = record t {
      received_chunks = f.index ∷ t.received_chunks;
      missing_chunks = without_index f.index t.missing_chunks;
      bytes_transferred = t.bytes_transferred + f.size;
      state = resumed t.state;
    } in
    if not (is_at f.transfer_id at r)
    then waits r (discard f.transfer_id ∷ []) (ending_piece f ref)
    else if is_cancelled t.state
    then ends (end_piece f ref r) []
    else ends (end_piece f ref (update at stored r))
        (progress_event t.transfer_id (resumed t.state) ∷ [])
