-- ===== src/Sender/Aside.antt =====
-- packages/rtc/src/file-transfer.ts: what the sender does for other transfers shows nothing of this one.
use risk_p2p.Prelude.{
  ℕ, zero, suc, ◌≡◌, refl, Bool, true, false, not, List, [], ◌∷◌, arith, ltb, ◌==◌, ==_iff, &&_iff,
  length, inl, inr, Bool-cases, Option-cases, all, find,
}
use risk_p2p.Sender.{
  Queued, Sender, Limits, Action, Task, offering, opening, flushing, completing, failing, reporting,
  settling, reading, holding, easing, passing, resting, sending, retrying, returned, Reply, done,
  thrown, Outcome, update, find_transfer, announce_and_pump, start, startable, pump_rounds, pump,
  accept_and_start, resume, offer, pause, cancel, confirm,
}
use risk_p2p.Sender.Transfer.{
  go_opening, go_reading, go_holding, go_easing, press, go_passing, send_with_retry, go_resting,
  go_sending, go_returned, go_flushing, go_completing, go_failing, go_settling,
}
use risk_p2p.Sender.Runs.{
  Event, offers, accepts, resumes, pauses, cancels, confirms, replied, go_offering, go_on, call,
}
use risk_p2p.Sender.Single.{ref_of, is_run, continues, ends_or_settles, go_on-continues}
use risk_p2p.Prelude.{Every}
use risk_p2p.Sender.{
  send_offer, send_manifest, send_complete, send_error, send_chunk, taken, iterate, delay_ms,
  progress,
}
use risk_p2p.Sender.Counts.{task_kinds}
use risk_p2p.Sender.Complete.{Trace, note, gather, Honest, Fits}

module _ (limits : Limits) (ref : ℕ) where
  -- What a trace of the transfer does not show.
  abbrev pub is_aside : Action → Bool
  is_aside (iterate i source manifest only) = not (i == ref)
  is_aside (taken i f) = not (i == ref)
  is_aside (send_complete i) = not (i == ref)
  is_aside _ = true

  pub gather-aside :
      (acts : List Action) (tr : Trace)
      → all is_aside acts ≡ true
      → (gather limits ref tr acts ≡ tr) × Honest limits ref tr acts
  unfolding gather note Honest
  gather-aside [] tr h = (refl, _)
  gather-aside (send_offer i ∷ acts) tr h = gather-aside acts tr h
  gather-aside (send_manifest i ∷ acts) tr h = gather-aside acts tr h
  gather-aside (send_error i b ∷ acts) tr h = gather-aside acts tr h
  gather-aside (send_chunk i f ∷ acts) tr h = gather-aside acts tr h
  gather-aside (delay_ms i n ∷ acts) tr h = gather-aside acts tr h
  gather-aside (progress i t p ∷ acts) tr h = gather-aside acts tr h
  gather-aside (taken i f ∷ acts) tr h =
      let both = (&&_iff (not (i == ref)) (all is_aside acts)).0 h in
      let differs : (i == ref) ≡ false = ground arith in rw differs (gather-aside acts tr both.1)
  gather-aside (iterate i source manifest only ∷ acts) tr h =
      let both = (&&_iff (not (i == ref)) (all is_aside acts)).0 h in
      let differs : (i == ref) ≡ false = ground arith in rw differs (gather-aside acts tr both.1)
  gather-aside (send_complete i ∷ acts) tr h =
      let both = (&&_iff (not (i == ref)) (all is_aside acts)).0 h in
      let rest = gather-aside acts tr both.1 in (rest.0, ((λ e. absurd ground arith), rest.1))

  pub pump_rounds-aside :
      (n : ℕ) (s : Sender) → all is_aside (pump_rounds limits n s).actions ≡ true
  unfolding pump_rounds start
  pump_rounds-aside zero s = refl
  pump_rounds-aside (suc n) s =
      elim (Bool-cases (ltb (length s.active) limits.max_concurrent_transfers)) [
        | inr full ↦ rw full refl
        | inl free ↦ rw free (elim (Option-cases (find (startable s) s.queue)) [
          | inl nothing ↦ rw nothing refl
          | inr (i, e) ↦ rw e (pump_rounds-aside n (start i s).sender)
        ])
      ]

  pub go_on-aside :
      (t : Task) (reply : Reply) (amount : ℕ) (s : Sender)
      → (ref_of t == ref) ≡ false
      → ends_or_settles t ≡ false
      → all is_aside (go_on limits t reply amount s).actions ≡ true
  unfolding ref_of go_on ends_or_settles go_opening go_holding go_easing press go_passing
      send_with_retry go_resting go_sending go_returned go_flushing go_completing go_failing
      go_reading
  go_on-aside (offering i) reply amount s e h = cc
  go_on-aside (settling i) reply amount s e h = cc
  go_on-aside (opening i) reply amount s e h = ground arith
  go_on-aside (reading i []) reply amount s e h = ground arith
  go_on-aside (reading i (f ∷ rest)) reply amount s e h = ground arith
  go_on-aside (holding i f rest) reply amount s e h = ground arith
  go_on-aside (easing i f rest) reply amount s e h = ground arith
  go_on-aside (passing i f rest) reply amount s e h = ground arith
  go_on-aside (resting i f rest) reply amount s e h = ground arith
  go_on-aside (sending i f rest) reply amount s e h = ground arith
  go_on-aside (retrying i f rest) reply amount s e h = ground arith
  go_on-aside (returned i f rest v) reply amount s e h = ground arith
  go_on-aside (flushing i) reply amount s e h = ground arith
  go_on-aside (completing i) reply amount s e h = ground arith
  go_on-aside (failing i) reply amount s e h = ground arith
  go_on-aside (reporting i) reply amount s e h = ground arith

  -- What a wait of this transfer knows.
  abbrev pub Knows : Trace → Task → Type 0
  Knows tr u = ref_of u ≡ ref → Fits limits ref tr u

  pub pump_rounds-Knows :
      (n : ℕ) (tr : Trace) (s : Sender) → Every (Knows tr) (pump_rounds limits n s).next
  unfolding pump_rounds start Fits
  pump_rounds-Knows zero tr s = _
  pump_rounds-Knows (suc n) tr s =
      elim (Bool-cases (ltb (length s.active) limits.max_concurrent_transfers)) [
        | inr full ↦ rw full _
        | inl free ↦ rw free (elim (Option-cases (find (startable s) s.queue)) [
          | inl nothing ↦ rw nothing _
          | inr (i, e) ↦ rw e ((λ h. _), pump_rounds-Knows n tr (start i s).sender)
        ])
      ]

  -- An operation that is no matter to the transfer.
  abbrev pub IsAside : Trace → Outcome → Type 0
  IsAside tr o = (all is_aside o.actions ≡ true) × Every (Knows tr) o.next

  pub pump-IsAside : (tr : Trace) (s : Sender) → IsAside tr (pump limits s)
  unfolding pump
  pump-IsAside tr s = (
    pump_rounds-aside limits.max_concurrent_transfers s,
    pump_rounds-Knows limits.max_concurrent_transfers tr s,
  )

  pub settling-IsAside : (i : ℕ) (tr : Trace) (s : Sender) → IsAside tr (go_settling limits i s)
  unfolding go_settling
  settling-IsAside i tr s = pump-IsAside tr _

  pub offering-IsAside :
      (i : ℕ) (reply : Reply) (tr : Trace) (s : Sender) → IsAside tr (go_offering i reply s)
  unfolding go_offering
  offering-IsAside i done tr s = (refl, _)
  offering-IsAside i thrown tr s = (refl, _)

  pub announce-IsAside :
      (i : ℕ) (t : Queued) (tr : Trace) (s : Sender) → IsAside tr (announce_and_pump limits i t s)
  unfolding announce_and_pump
  announce-IsAside i t tr s = pump-IsAside tr (update i t s)

  pub call-IsAside : (e : Event) (tr : Trace) (s : Sender) → IsAside tr (call limits e s)
  unfolding call accept_and_start resume pause cancel confirm offer Fits
  call-IsAside (offers id peer source manifest) tr s = (refl, ((λ h. _), _))
  call-IsAside (accepts id missing) tr s = elim (Option-cases (find_transfer id s)) [
    | inl e ↦ rw (e, accept_and_start) (refl, _)
    | inr (i, e) ↦ rw (e, accept_and_start) (announce-IsAside i _ tr s)
  ]
  call-IsAside (resumes id missing) tr s = elim (Option-cases (find_transfer id s)) [
    | inl e ↦ rw (e, resume) (refl, _)
    | inr (i, e) ↦ rw (e, resume) (announce-IsAside i _ tr s)
  ]
  call-IsAside (pauses id) tr s = elim (Option-cases (find_transfer id s)) [
    | inl e ↦ rw (e, pause) (refl, _)
    | inr (i, e) ↦ rw (e, pause) (refl, _)
  ]
  call-IsAside (cancels id) tr s = elim (Option-cases (find_transfer id s)) [
    | inl e ↦ rw (e, cancel) (refl, _)
    | inr (i, e) ↦ rw (e, cancel) (refl, _)
  ]
  call-IsAside (confirms id) tr s = elim (Option-cases (find_transfer id s)) [
    | inl e ↦ rw (e, confirm) (refl, _)
    | inr (i, e) ↦ rw (e, confirm) (refl, _)
  ]
  call-IsAside (replied i reply amount) tr s = (refl, _)

  pub continues-Knows :
      (i : ℕ) (tr : Trace) (next : List Task)
      → (i == ref) ≡ false
      → continues i next ≡ true
      → Every (Knows tr) next
  unfolding continues
  continues-Knows i tr [] differs e = _
  continues-Knows i tr (u ∷ []) differs e =
      let both = (&&_iff (is_run u) (ref_of u == i)).0 e in
      ((λ same. absurd ground (arith, (==_iff (ref_of u) i).0 both.1)), _)
  continues-Knows i tr (u ∷ v ∷ ts) differs e = absurd cc

  pub other-IsAside :
      (t : Task) (reply : Reply) (amount : ℕ) (tr : Trace) (s : Sender)
      → (ref_of t == ref) ≡ false
      → IsAside tr (go_on limits t reply amount s)
  unfolding go_on
  other-IsAside t reply amount tr s differs = elim (task_kinds limits [] t) [
    | inl (i, e) ↦ rw e (settling-IsAside i tr s)
    | inr (inl (i, e)) ↦ rw e (offering-IsAside i reply tr s)
    | inr (inr (goes, runs_on, mine)) ↦ (
      go_on-aside t reply amount s differs goes,
      continues-Knows (ref_of t) tr (go_on limits t reply amount s).next differs
          (go_on-continues limits t reply amount s goes),
    )
  ]
