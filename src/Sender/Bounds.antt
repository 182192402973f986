-- ===== src/Sender/Bounds.antt =====
-- packages/rtc/src/file-transfer.ts: how many transfers of the sender run at once, over all orders of
-- its events.
use risk_p2p.Prelude.{
  ℕ, ◌≤◌, ◌≡◌, refl, Bool, true, false, Option, none, some, List, [], ◌∷◌, arith, length, get_elem?,
  if◌then◌else◌, ◌⊎◌, inl, inr, Option-cases,
}
use risk_p2p.Prelude.Map.{delete, length-delete}
use risk_p2p.Sender.{
  Queued, Sender, Limits, Task, offering, opening, flushing, completing, failing, reporting,
  settling, reading, holding, easing, passing, resting, sending, retrying, returned, Reply, update,
  remove_transfer, find_transfer, announce_and_pump, pump, accept_and_start, resume, offer, pause,
  cancel, confirm,
}
use risk_p2p.Sender.Transfer.{
  go_opening, go_reading, go_holding, go_easing, press, go_passing, send_with_retry, go_resting,
  go_sending, go_returned, go_flushing, go_completing, go_failing, go_settling,
}
use risk_p2p.Sender.Runs.{
  Event, offers, accepts, resumes, pauses, cancels, confirms, replied, System, go_offering, go_on,
  after, go_on_at, call, step, run,
}
use risk_p2p.Sender.Pump.{pump_rounds-length}

module _ (limits : Limits) where
  abbrev pub IsBounded : Sender → Type 0
  IsBounded s = length s.active ≤ limits.max_concurrent_transfers

  pump-IsBounded : (s : Sender) → IsBounded s → IsBounded (pump limits s).sender
  unfolding pump
  pump-IsBounded s h = pump_rounds-length limits limits.max_concurrent_transfers s h

  settling-IsBounded :
      (ref : ℕ) (s : Sender) → IsBounded s → IsBounded (go_settling limits ref s).sender
  unfolding go_settling remove_transfer
  settling-IsBounded ref s h =
      let fewer = length-delete (s.cells ref).transfer_id s.active in
      pump-IsBounded
        (if (s.cells ref).cancelled
          then remove_transfer ref (record s { active = delete (s.cells ref).transfer_id s.active })
          else record s { active = delete (s.cells ref).transfer_id s.active })
        (ground arith)

  -- Only the end of a run changes which transfers are active.
  unfoldable pub is_settling : Task → Bool
  is_settling (settling ref) = true
  is_settling _ = false

  pub go_on-active :
      (t : Task) (reply : Reply) (amount : ℕ) (s : Sender)
      → is_settling t ≡ false
      → (go_on limits t reply amount s).sender.active ≡ s.active
  unfolding is_settling go_on go_offering go_opening go_reading go_holding go_easing press
      go_passing send_with_retry go_resting go_sending go_returned go_flushing go_completing
      go_failing update
  go_on-active (offering ref) reply amount s h = ground arith
  go_on-active (opening ref) reply amount s h = ground arith
  go_on-active (reading ref frames) reply amount s h = ground arith
  go_on-active (holding ref f rest) reply amount s h = ground arith
  go_on-active (easing ref f rest) reply amount s h = ground arith
  go_on-active (passing ref f rest) reply amount s h = ground arith
  go_on-active (resting ref f rest) reply amount s h = ground arith
  go_on-active (sending ref f rest) reply amount s h = ground arith
  go_on-active (retrying ref f rest) reply amount s h = ground arith
  go_on-active (returned ref f rest verdict) reply amount s h = ground arith
  go_on-active (flushing ref) reply amount s h = ground arith
  go_on-active (completing ref) reply amount s h = ground arith
  go_on-active (failing ref) reply amount s h = ground arith
  go_on-active (reporting ref) reply amount s h = ground arith
  go_on-active (settling ref) reply amount s h = cc

  pub settling-cases : (t : Task) → ((ref : ℕ) × (t ≡ settling ref)) ⊎ (is_settling t ≡ false)
  unfolding is_settling
  settling-cases (settling ref) = inl (ref, refl)
  settling-cases (offering ref) = inr refl
  settling-cases (opening ref) = inr refl
  settling-cases (reading ref frames) = inr refl
  settling-cases (holding ref f rest) = inr refl
  settling-cases (easing ref f rest) = inr refl
  settling-cases (passing ref f rest) = inr refl
  settling-cases (resting ref f rest) = inr refl
  settling-cases (sending ref f rest) = inr refl
  settling-cases (retrying ref f rest) = inr refl
  settling-cases (returned ref f rest verdict) = inr refl
  settling-cases (flushing ref) = inr refl
  settling-cases (completing ref) = inr refl
  settling-cases (failing ref) = inr refl
  settling-cases (reporting ref) = inr refl

  go_on-IsBounded :
      (t : Task) (reply : Reply) (amount : ℕ) (s : Sender)
      → IsBounded s
      → IsBounded (go_on limits t reply amount s).sender
  unfolding go_on
  go_on-IsBounded t reply amount s h = elim (settling-cases t) [
    | inl (ref, e) ↦ rw e (settling-IsBounded ref s h)
    | inr other ↦ rw (go_on-active t reply amount s other) h
  ]

  announce-IsBounded :
      (ref : ℕ) (t : Queued) (s : Sender)
      → IsBounded s
      → IsBounded (announce_and_pump limits ref t s).sender
  unfolding announce_and_pump update
  announce-IsBounded ref t s h = pump-IsBounded (update ref t s) h

  call-IsBounded : (e : Event) (s : Sender) → IsBounded s → IsBounded (call limits e s).sender
  unfolding call accept_and_start resume offer pause cancel confirm update remove_transfer
  call-IsBounded (offers id peer source manifest) s h = h
  call-IsBounded (accepts id missing) s h = elim (Option-cases (find_transfer id s)) [
    | inl e ↦ rw (e, accept_and_start) h
    | inr (ref, e) ↦ rw (e, accept_and_start) (announce-IsBounded ref _ s h)
  ]
  call-IsBounded (resumes id missing) s h = elim (Option-cases (find_transfer id s)) [
    | inl e ↦ rw (e, resume) h
    | inr (ref, e) ↦ rw (e, resume) (announce-IsBounded ref _ s h)
  ]
  call-IsBounded (pauses id) s h = ground arith
  call-IsBounded (cancels id) s h = ground arith
  call-IsBounded (confirms id) s h = ground arith
  call-IsBounded (replied i reply amount) s h = h

  reply-IsBounded :
      (i : ℕ) (reply : Reply) (amount : ℕ) (o : Option Task) (y : System)
      → IsBounded y.sender
      → IsBounded (go_on_at limits i reply amount o y).sender
  unfolding go_on_at after
  reply-IsBounded i reply amount none y h = h
  reply-IsBounded i reply amount (some t) y h = go_on-IsBounded t reply amount y.sender h

  step-IsBounded :
      (e : Event) (y : System) → IsBounded y.sender → IsBounded (step limits e y).sender
  unfolding step after
  step-IsBounded (offers id peer source manifest) y h =
      call-IsBounded (offers id peer source manifest) y.sender h
  step-IsBounded (accepts id missing) y h = call-IsBounded (accepts id missing) y.sender h
  step-IsBounded (resumes id missing) y h = call-IsBounded (resumes id missing) y.sender h
  step-IsBounded (pauses id) y h = call-IsBounded (pauses id) y.sender h
  step-IsBounded (cancels id) y h = call-IsBounded (cancels id) y.sender h
  step-IsBounded (confirms id) y h = call-IsBounded (confirms id) y.sender h
  step-IsBounded (replied i reply amount) y h =
      reply-IsBounded i reply amount (get_elem? y.tasks i) y h

  -- Whatever events come in whatever order, a sender that starts with no more active transfers than
  -- `maxConcurrentTransfers` never has more.
  pub run-IsBounded :
      (es : List Event) (y : System) → IsBounded y.sender → IsBounded (run limits es y).sender
  unfolding run
  run-IsBounded [] y h = h
  run-IsBounded (e ∷ es) y h = run-IsBounded es (step limits e y) (step-IsBounded e y h)
