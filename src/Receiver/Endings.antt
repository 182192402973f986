-- ===== src/Receiver/Endings.antt =====
-- packages/rtc/src/file-receiver.ts: `cancel`, `complete` and `updateState`, cut at each `await`.
use risk_p2p.Prelude.{
  ℕ, Bool, true, false, not, ◌||◌, none, some, List, [], ◌∷◌, take, if◌then◌else◌,
}
use risk_p2p.Prelude.Text.{Text, text_eq}
use risk_p2p.Prelude.TextSet.{has}
use risk_p2p.Prelude.Map.{lookup}
use risk_p2p.Receiver.{
  TransferState, verifying, completed, failed, cancelled, Transfer, Receiver, send_need,
  send_complete, send_error, finalize, discard, list_missing_chunks, progress_event, Reply, thrown,
  indices, digest, cancelling_wait, cancelling_discard, completing_wait, completing_list,
  finalizing, completing_sent, Outcome, ends, waits, update, set_state, drop_transfer, is_at,
  is_open, is_receiving, max_missing_chunks_per_request,
}

-- `updateState`
unfoldable pub update_state : Text → TransferState → Receiver → Outcome
update_state id s r = elim (lookup id r.transfers) [
  | none ↦ ends r []
  | some ref ↦ ends (set_state ref s r) (progress_event (r.cells ref).transfer_id s ∷ [])
]

unfoldable pub cancel : Text → Receiver → Outcome
cancel id r = elim (lookup id r.transfers) [
  | none ↦ ends r []
  | some ref ↦
      waits (set_state ref cancelled r) (progress_event (r.cells ref).transfer_id cancelled ∷ [])
        (cancelling_wait id)
]

-- `waitForInFlightWrites` waits on while a piece is being written.
unfoldable pub go_cancelling_wait : Text → Reply → Receiver → Outcome
go_cancelling_wait id reply r =
    if has id r.in_flight
    then waits r [] (cancelling_wait id)
    else waits r (discard id ∷ []) (cancelling_discard id)

unfoldable pub go_cancelling_discard : Text → Reply → Receiver → Outcome
go_cancelling_discard id thrown r = ends r []
go_cancelling_discard id _ r = ends (drop_transfer id r) []

unfoldable pub complete : Text → Text → Text → Receiver → Outcome
complete peer id announced r = elim (lookup id r.transfers) [
  | none ↦ ends r []
  | some ref ↦
      if not (text_eq (r.cells ref).peer_id peer) || not (is_open (r.cells ref).state)
      then ends r []
      else waits r [] (completing_wait peer ref announced)
]

-- What is missing is asked for; if nothing is, the file is put together.
unfoldable pub finish : Text → ℕ → Text → List ℕ → Receiver → Outcome
finish peer ref announced (i ∷ missing) r = ends r (
    send_need peer (r.cells ref).transfer_id (take max_missing_chunks_per_request (i ∷ missing))
    ∷ [])
finish peer ref announced [] r =
    let id = (r.cells ref).transfer_id in
    waits (set_state ref verifying r) (progress_event id verifying ∷ finalize id ∷ [])
      (finalizing peer ref announced)

unfoldable pub go_completing_wait : Text → ℕ → Text → Reply → Receiver → Outcome
unfolding finish
go_completing_wait peer ref announced reply r =
    let t = r.cells ref in
    if has t.transfer_id r.in_flight
    then waits r [] (completing_wait peer ref announced)
    else if not (is_receiving ref r)
    then ends r []
    else elim t.missing_chunks [
      | some missing ↦ finish peer ref announced missing r
      | none ↦
          waits r (list_missing_chunks t.transfer_id t.manifest.chunk_count ∷ [])
            (completing_list peer ref announced)
    ]

-- `transfer.missingChunks ??= new Set(missing)`
unfoldable pub note_missing : ℕ → List ℕ → Receiver → Receiver
note_missing ref missing r =
    let t = r.cells ref in
    elim t.missing_chunks [
      | some known ↦ r
      | none ↦ update ref (record t { missing_chunks = some missing }) r
    ]

unfoldable pub go_completing_list : Text → ℕ → Text → Reply → Receiver → Outcome
unfolding finish note_missing
go_completing_list peer ref announced (indices missing) r =
    finish peer ref announced missing (note_missing ref missing r)
go_completing_list peer ref announced _ r = ends r []

abbrev pub is_verifying : TransferState → Bool
is_verifying verifying = true
is_verifying _ = false

abbrev given_up : TransferState → Bool
given_up cancelled = true
given_up _ = false

-- The `catch` of `complete`
unfoldable pub complete_failed : Text → ℕ → Receiver → Outcome
complete_failed peer ref r =
    let t = r.cells ref in
    if not (is_at t.transfer_id ref r) || given_up t.state
    then ends r []
    else ends (set_state ref failed r)
        (progress_event t.transfer_id failed ∷ send_error peer t.transfer_id ∷ [])

module _ (lower : Text → Text) where
  unfoldable pub go_finalizing : Text → ℕ → Text → Reply → Receiver → Outcome
  unfolding complete_failed
  go_finalizing peer ref announced (digest h) r =
      let t = r.cells ref in
      let finished : Transfer = record t {
        bytes_transferred = t.manifest.size;
        state = completed;
      } in
      if not (is_at t.transfer_id ref r) || not (is_verifying t.state)
      then ends r (discard t.transfer_id ∷ [])
      else if not (text_eq (lower h) (lower t.manifest.content_hash))
          || not (text_eq (lower h) (lower announced))
      then complete_failed peer ref r
      else waits (update ref finished r)
          (progress_event t.transfer_id completed ∷ send_complete peer t.transfer_id h ∷ [])
          (completing_sent peer ref announced)
  go_finalizing peer ref announced _ r = complete_failed peer ref r

unfoldable pub go_completing_sent : Text → ℕ → Text → Reply → Receiver → Outcome
unfolding complete_failed
go_completing_sent peer ref announced thrown r = complete_failed peer ref r
go_completing_sent peer ref announced _ r = ends (drop_transfer (r.cells ref).transfer_id r) []
