-- ===== src/Sender/Transfer.antt =====
-- packages/rtc/src/file-transfer.ts: `run`, `sendWithRetry` and `applyBackpressure` of the sender, cut
-- at each `await`. `amount` is what `getBufferedAmount` answers when it is asked. A promise that an
-- async function of the sender returns is one wait more, and so is the way of an exception to the
-- `catch` of `run`.
use risk_p2p.Prelude.{
  ℕ, ◌+◌, ◌*◌, min, Bool, true, false, not, ◌&&◌, Option, none, some, List, [], ◌∷◌, ltb, leb, ◌==◌,
  length, any, if◌then◌else◌,
}
use risk_p2p.Prelude.Text.{Text}
use risk_p2p.Prelude.Map.{delete}
use risk_p2p.Frames.{Frame}
use risk_p2p.Chunks.{AttachmentManifest, iterate_attachment_chunks}
use risk_p2p.Sender.{
  Queued, Sender, Limits, Progress, transferring, paused, verifying, failed, send_complete,
  send_error, send_chunk, taken, iterate, delay_ms, Verdict, delivered, gave_up, flushing,
  completing, failing, reporting, settling, reading, holding, easing, passing, resting, sending,
  retrying, returned, Reply, done, thrown, Outcome, waits, update, emit, remove_transfer, pump,
}

-- `onlyChunks.has`
abbrev pub has_of : Option (List ℕ) → Option (ℕ → Bool)
has_of none = none
has_of (some indices) = some (λ i. any (λ j. j == i) indices)

-- `frame.transferId = transfer.transferId`
abbrev pub with_id : Text → Frame → Frame
with_id id f = record f { metadata = record f.metadata { transfer_id = id } }

-- `run` returns.
abbrev pub settle : ℕ → Sender → Outcome
settle ref s = waits s [] (settling ref)

-- The state that is told while the chunks are sent.
abbrev pub going : Queued → Progress
going t = if t.paused then paused else transferring

module _ (limits : Limits) where
  abbrev pub frames_of : List ℕ → AttachmentManifest → Option (List ℕ) → List Frame
  frames_of source manifest only =
      iterate_attachment_chunks limits.sha256 source manifest (has_of only)

  unfoldable pub go_opening : ℕ → Reply → Sender → Outcome
  go_opening ref thrown s = settle ref s
  go_opening ref done s =
      let t = s.cells ref in
      if t.cancelled
      then settle ref s
      else waits s (emit ref (going t) s ∷ iterate ref t.source t.manifest t.missing_chunks ∷ [])
          (reading ref (frames_of t.source t.manifest t.missing_chunks))

  -- `applyBackpressure` up to its first wait.
  unfoldable pub press : ℕ → Frame → List Frame → ℕ → Sender → Outcome
  press ref frame rest amount s = waits s [] (
      if leb amount limits.high_water_mark_bytes
      then passing ref frame rest
      else easing ref frame rest)

  unfoldable pub go_reading : ℕ → List Frame → Reply → ℕ → Sender → Outcome
  unfolding press
  go_reading ref frames thrown amount s = waits s [] (failing ref)
  go_reading ref [] done amount s =
      waits s [] (if (s.cells ref).cancelled then settling ref else flushing ref)
  go_reading ref (frame ∷ rest) done amount s =
      if (s.cells ref).cancelled
      then settle ref s
      else if (s.cells ref).paused
      then waits s (delay_ms ref 100 ∷ []) (holding ref frame rest)
      else press ref frame rest amount s

  unfoldable pub go_holding : ℕ → Frame → List Frame → ℕ → Sender → Outcome
  unfolding press
  go_holding ref frame rest amount s =
      if (s.cells ref).paused
      then waits s (delay_ms ref 100 ∷ []) (holding ref frame rest)
      else if (s.cells ref).cancelled
      then settle ref s
      else press ref frame rest amount s

  unfoldable pub go_easing : ℕ → Frame → List Frame → Reply → ℕ → Sender → Outcome
  go_easing ref frame rest thrown amount s = waits s [] (failing ref)
  go_easing ref frame rest done amount s = waits s [] (
      if not limits.waits_for_low && ltb limits.low_water_mark_bytes amount
      then easing ref frame rest
      else passing ref frame rest)

  -- `this.sendChunk(transfer.peerId, frame)`
  abbrev pub send_now : ℕ → Frame → List Frame → Sender → Outcome
  send_now ref frame rest s =
      waits s (send_chunk ref (with_id (s.cells ref).transfer_id frame) ∷ [])
        (sending ref frame rest)

  -- The loop of `sendWithRetry` up to its next wait.
  unfoldable pub send_with_retry : ℕ → Frame → List Frame → Sender → Outcome
  send_with_retry ref frame rest s =
      if (s.cells ref).cancelled
      then waits s [] (returned ref frame rest gave_up)
      else if (s.cells ref).paused
      then waits s (delay_ms ref 100 ∷ []) (resting ref frame rest)
      else send_now ref frame rest s

  unfoldable pub go_resting : ℕ → Frame → List Frame → Sender → Outcome
  go_resting ref frame rest s =
      if (s.cells ref).paused
      then waits s (delay_ms ref 100 ∷ []) (resting ref frame rest)
      else if (s.cells ref).cancelled
      then waits s [] (returned ref frame rest gave_up)
      else send_now ref frame rest s

  unfoldable pub go_passing : ℕ → Frame → List Frame → Sender → Outcome
  unfolding send_with_retry
  go_passing ref frame rest s =
      if (s.cells ref).cancelled then settle ref s else send_with_retry ref frame rest s

  unfoldable pub go_sending : ℕ → Frame → List Frame → Reply → Sender → Outcome
  unfolding update
  go_sending ref frame rest done s =
      waits s (taken ref (with_id (s.cells ref).transfer_id frame) ∷ [])
        (returned ref frame rest delivered)
  go_sending ref frame rest thrown s =
      let t = s.cells ref in
      let n = t.retry_count + 1 in
      let s1 = update ref (record t { retry_count = n }) s in
      if ltb limits.retry_limit n
      then waits s1 [] (failing ref)
      else waits s1 (delay_ms ref (limits.retry_delay_ms * n) ∷ []) (retrying ref frame rest)

  unfoldable pub go_returned : ℕ → Frame → List Frame → Verdict → Sender → Outcome
  unfolding update
  go_returned ref frame rest gave_up s = settle ref s
  go_returned ref frame rest delivered s =
      let t = s.cells ref in
      let sum = t.bytes_transferred + length frame.payload in
      let s1 = update ref (record t { bytes_transferred = min t.manifest.size sum }) s in
      if t.cancelled
      then settle ref s1
      else waits s1 (emit ref (going t) s1 ∷ []) (reading ref rest)

  unfoldable pub go_flushing : ℕ → Reply → Sender → Outcome
  unfolding update
  go_flushing ref thrown s = waits s [] (failing ref)
  go_flushing ref done s =
      let t = s.cells ref in
      let s1 = update ref (record t { awaiting_verification = true }) s in
      if t.cancelled
      then settle ref s
      else waits s1 (emit ref verifying s1 ∷ send_complete ref ∷ []) (completing ref)

  unfoldable pub go_completing : ℕ → Reply → Sender → Outcome
  go_completing ref thrown s = waits s [] (failing ref)
  go_completing ref done s = settle ref s

  -- The `catch` of `run`.
  unfoldable pub go_failing : ℕ → Sender → Outcome
  unfolding update
  go_failing ref s =
      let t = s.cells ref in
      let s1 = update ref (record t { awaiting_verification = false }) s in
      waits s1 (emit ref failed s1 ∷ send_error ref (ltb t.retry_count limits.retry_limit) ∷ [])
        (reporting ref)

  -- What `pump` has put behind `run`.
  unfoldable pub go_settling : ℕ → Sender → Outcome
  unfolding pump remove_transfer
  go_settling ref s =
      let s1 = record s { active = delete (s.cells ref).transfer_id s.active } in
      pump limits (if (s.cells ref).cancelled then remove_transfer ref s1 else s1)
