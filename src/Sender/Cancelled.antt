-- ===== src/Sender/Cancelled.antt =====
-- packages/rtc/src/file-transfer.ts: what the sender still sends of a transfer that was cancelled.
use risk_p2p.Prelude.{
  ℕ, zero, suc, ◌+◌, ◌<◌, ◌≡◌, refl, subst, Bool, true, false, not, ◌&&◌, List, [], ◌∷◌, arith, ltb,
  ◌==◌, ==_iff, &&_iff, length, min, if◌then◌else◌, inl, inr, Bool-cases, Option-cases, all, find,
  find_passes,
}
use risk_p2p.Prelude.Map.{delete}
use risk_p2p.Frames.{Frame}
use risk_p2p.Sender.{
  Queued, Sender, Limits, Action, send_manifest, send_complete, send_chunk, Task, offering, opening,
  flushing, completing, failing, reporting, settling, reading, holding, easing, passing, resting,
  sending, retrying, returned, Verdict, delivered, gave_up, Reply, done, thrown, Outcome, update,
  remove_transfer, start, startable, pump_rounds, pump,
}
use risk_p2p.Sender.Transfer.{
  go_opening, go_reading, go_holding, go_easing, press, go_passing, send_with_retry, go_resting,
  go_sending, go_returned, go_flushing, go_completing, go_failing, go_settling,
}
use risk_p2p.Sender.Runs.{go_offering, go_on}

module _ (ref : ℕ) where
  -- The transfer is there, and cancelled.
  unfoldable pub is_cancelled : Sender → Bool
  is_cancelled s = (s.cells ref).cancelled && ltb ref s.next_ref

  -- Neither a manifest, nor a chunk, nor the end of the transfer.
  abbrev pub is_quiet : Action → Bool
  is_quiet (send_manifest i) = not (i == ref)
  is_quiet (send_complete i) = not (i == ref)
  is_quiet (send_chunk i frame) = not (i == ref)
  is_quiet _ = true

  abbrev pub IsQuiet : Outcome → Type 0
  IsQuiet o = (is_cancelled o.sender && all is_quiet o.actions) ≡ true

  pub unmoved :
      (i : ℕ) (t : Queued) (s : Sender)
      → ((s.cells i).cancelled ≡ true → t.cancelled ≡ true)
      → is_cancelled s ≡ true
      → is_cancelled (update i t s) ≡ true
  unfolding is_cancelled update
  unmoved i t s same h = elim (Bool-cases (ref == i)) [
    | inl e ↦
        let both = (&&_iff _ _).0 h in
        let mine = subst (λ j. (s.cells j).cancelled ≡ true) ((==_iff ref i).0 e) both.0 in
        rw e ((&&_iff _ _).1 (same mine, both.1))
    | inr e ↦ rw e h
  ]

  -- A guard on the transfer of the wait makes it another one.
  pub other :
      (i : ℕ) (s : Sender)
      → is_cancelled s ≡ true
      → (s.cells i).cancelled ≡ false
      → (i == ref) ≡ false
  unfolding is_cancelled
  other i s h e = elim (Bool-cases (i == ref)) [
    | inl same ↦
        let mine = subst (λ j. (s.cells j).cancelled ≡ false) ((==_iff i ref).0 same) e in
        let both = (&&_iff (s.cells ref).cancelled (ltb ref s.next_ref)).0 h in absurd ground arith
    | inr differs ↦ differs
  ]

  pub start_keeps :
      (i : ℕ) (s : Sender) → is_cancelled s ≡ true → is_cancelled (start i s).sender ≡ true
  unfolding is_cancelled start
  start_keeps i s h = h

  pub removed_keeps : (i : ℕ) (s : Sender) → is_cancelled (remove_transfer i s) ≡ is_cancelled s
  unfolding is_cancelled remove_transfer
  removed_keeps i s = refl

  pub updated_cancelled :
      (t : Queued) (s : Sender)
      → ref < s.next_ref
      → is_cancelled (update ref (record t { cancelled = true }) s) ≡ true
  unfolding is_cancelled update
  updated_cancelled t s lt = ground arith

module _ (limits : Limits) (ref : ℕ) where
  -- A run of a cancelled transfer sends nothing more.
  pub send_with_retry-IsQuiet :
      (i : ℕ) (f : Frame) (rest : List Frame) (s : Sender)
      → is_cancelled ref s ≡ true
      → IsQuiet ref (send_with_retry limits i f rest s)
  unfolding send_with_retry
  send_with_retry-IsQuiet i f rest s h = ground (arith, other ref i s h)

  pub opening-IsQuiet :
      (i : ℕ) (reply : Reply) (s : Sender)
      → is_cancelled ref s ≡ true
      → IsQuiet ref (go_opening limits i reply s)
  unfolding go_opening
  opening-IsQuiet i done s h = ground arith
  opening-IsQuiet i thrown s h = ground arith

  pub sending-IsQuiet :
      (i : ℕ) (f : Frame) (rest : List Frame) (reply : Reply) (s : Sender)
      → is_cancelled ref s ≡ true
      → IsQuiet ref (go_sending limits i f rest reply s)
  unfolding go_sending
  sending-IsQuiet i f rest done s h = ground arith
  sending-IsQuiet i f rest thrown s h = ground (
    arith,
    unmoved ref i (record (s.cells i) { retry_count = (s.cells i).retry_count + 1 }) s (λ e. e) h,
  )

  pub flushing-IsQuiet :
      (i : ℕ) (reply : Reply) (s : Sender)
      → is_cancelled ref s ≡ true
      → IsQuiet ref (go_flushing limits i reply s)
  unfolding go_flushing
  flushing-IsQuiet i done s h = ground (
    arith,
    unmoved ref i (record (s.cells i) { awaiting_verification = true }) s (λ e. e) h,
    other ref i s h,
  )
  flushing-IsQuiet i thrown s h = ground arith

  pub returned-IsQuiet :
      (i : ℕ) (f : Frame) (rest : List Frame) (v : Verdict) (s : Sender)
      → is_cancelled ref s ≡ true
      → IsQuiet ref (go_returned limits i f rest v s)
  unfolding go_returned
  returned-IsQuiet i f rest gave_up s h = ground arith
  returned-IsQuiet i f rest delivered s h =
      let sum = (s.cells i).bytes_transferred + length f.payload in
      ground (
        arith,
        unmoved ref i (record (s.cells i) { bytes_transferred = min (s.cells i).manifest.size sum })
            s (λ e. e) h,
      )

  pub failing-IsQuiet :
      (i : ℕ) (s : Sender) → is_cancelled ref s ≡ true → IsQuiet ref (go_failing limits i s)
  unfolding go_failing
  failing-IsQuiet i s h =
      ground
        (arith, unmoved ref i (record (s.cells i) { awaiting_verification = false }) s (λ e. e) h)

  pub reading-IsQuiet :
      (i : ℕ) (frames : List Frame) (reply : Reply) (amount : ℕ) (s : Sender)
      → is_cancelled ref s ≡ true
      → IsQuiet ref (go_reading limits i frames reply amount s)
  unfolding go_reading press
  reading-IsQuiet i frames thrown amount s h = ground arith
  reading-IsQuiet i [] done amount s h = ground arith
  reading-IsQuiet i (f ∷ rest) done amount s h = ground arith

  pub holding-IsQuiet :
      (i : ℕ) (f : Frame) (rest : List Frame) (amount : ℕ) (s : Sender)
      → is_cancelled ref s ≡ true
      → IsQuiet ref (go_holding limits i f rest amount s)
  unfolding go_holding press
  holding-IsQuiet i f rest amount s h = ground arith

  pub easing-IsQuiet :
      (i : ℕ) (f : Frame) (rest : List Frame) (reply : Reply) (amount : ℕ) (s : Sender)
      → is_cancelled ref s ≡ true
      → IsQuiet ref (go_easing limits i f rest reply amount s)
  unfolding go_easing
  easing-IsQuiet i f rest reply amount s h = ground arith

  pub passing-IsQuiet :
      (i : ℕ) (f : Frame) (rest : List Frame) (s : Sender)
      → is_cancelled ref s ≡ true
      → IsQuiet ref (go_passing limits i f rest s)
  unfolding go_passing
  passing-IsQuiet i f rest s h = ground (arith, send_with_retry-IsQuiet i f rest s h)

  pub resting-IsQuiet :
      (i : ℕ) (f : Frame) (rest : List Frame) (s : Sender)
      → is_cancelled ref s ≡ true
      → IsQuiet ref (go_resting limits i f rest s)
  unfolding go_resting
  resting-IsQuiet i f rest s h = ground (arith, other ref i s h)

  pub start_other :
      (i : ℕ) (s : Sender) → is_cancelled ref s ≡ true → startable s i ≡ true → (i == ref) ≡ false
  unfolding startable
  start_other i s h e = other ref i s h (ground arith)

  pub pump_rounds-IsQuiet :
      (n : ℕ) (s : Sender) → is_cancelled ref s ≡ true → IsQuiet ref (pump_rounds limits n s)
  unfolding pump_rounds start
  pump_rounds-IsQuiet zero s h = ground arith
  pump_rounds-IsQuiet (suc n) s h =
      elim (Bool-cases (ltb (length s.active) limits.max_concurrent_transfers)) [
        | inr full ↦ rw full (ground arith)
        | inl free ↦ rw free (elim (Option-cases (find (startable s) s.queue)) [
          | inl nothing ↦ rw nothing (ground arith)
          | inr (i, e) ↦
              let differs = start_other i s h (find_passes (startable s) s.queue i e) in
              let later = pump_rounds-IsQuiet n (start i s).sender (start_keeps ref i s h) in
              rw e (ground (arith, differs))
        ])
      ]

  pub pump-IsQuiet : (s : Sender) → is_cancelled ref s ≡ true → IsQuiet ref (pump limits s)
  unfolding pump
  pump-IsQuiet s h = pump_rounds-IsQuiet limits.max_concurrent_transfers s h

  pub settling-IsQuiet :
      (i : ℕ) (s : Sender) → is_cancelled ref s ≡ true → IsQuiet ref (go_settling limits i s)
  unfolding go_settling remove_transfer is_cancelled
  settling-IsQuiet i s h =
      pump-IsQuiet
        (if (s.cells i).cancelled
          then remove_transfer i (record s { active = delete (s.cells i).transfer_id s.active })
          else record s { active = delete (s.cells i).transfer_id s.active })
        (ground arith)

  pub go_on-IsQuiet :
      (t : Task) (reply : Reply) (amount : ℕ) (s : Sender)
      → is_cancelled ref s ≡ true
      → IsQuiet ref (go_on limits t reply amount s)
  unfolding go_on go_offering go_completing
  go_on-IsQuiet (offering i) reply amount s h = ground arith
  go_on-IsQuiet (opening i) reply amount s h = opening-IsQuiet i reply s h
  go_on-IsQuiet (reading i frames) reply amount s h = reading-IsQuiet i frames reply amount s h
  go_on-IsQuiet (holding i f rest) reply amount s h = holding-IsQuiet i f rest amount s h
  go_on-IsQuiet (easing i f rest) reply amount s h = easing-IsQuiet i f rest reply amount s h
  go_on-IsQuiet (passing i f rest) reply amount s h = passing-IsQuiet i f rest s h
  go_on-IsQuiet (resting i f rest) reply amount s h = resting-IsQuiet i f rest s h
  go_on-IsQuiet (sending i f rest) reply amount s h = sending-IsQuiet i f rest reply s h
  go_on-IsQuiet (retrying i f rest) reply amount s h = send_with_retry-IsQuiet i f rest s h
  go_on-IsQuiet (returned i f rest verdict) reply amount s h = returned-IsQuiet i f rest verdict s h
  go_on-IsQuiet (flushing i) reply amount s h = flushing-IsQuiet i reply s h
  go_on-IsQuiet (completing i) reply amount s h = ground arith
  go_on-IsQuiet (failing i) reply amount s h = failing-IsQuiet i s h
  go_on-IsQuiet (reporting i) reply amount s h = ground arith
  go_on-IsQuiet (settling i) reply amount s h = settling-IsQuiet i s h
