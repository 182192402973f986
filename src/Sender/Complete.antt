-- ===== src/Sender/Complete.antt =====
-- packages/rtc/src/file-transfer.ts: what the pieces of a run of the sender know of the chunks that the
-- channel has taken.
use risk_p2p.Prelude.{
  ℕ, ◌+◌, ◌≡◌, refl, sym, ◌∙◌, Bool, true, false, not, ◌&&◌, List, [], ◌∷◌, ◌++◌, arith, ltb, leb,
  ◌==◌, if◌then◌else◌, inl, inr, Bool-cases,
}
use risk_p2p.Frames.{Frame}
use risk_p2p.Sender.{
  Sender, Limits, Action, Task, flushing, reading, holding, easing, passing, resting, sending,
  retrying, returned, Verdict, delivered, gave_up, Reply, done, thrown, Outcome,
}
use risk_p2p.Sender.Transfer.{
  go_opening, go_reading, go_holding, go_easing, press, go_passing, send_with_retry, go_resting,
  go_sending, go_returned, go_flushing,
}
use mathlib.Core.List.{append_assoc, append-nil}
use risk_p2p.Prelude.{map, Every}
use risk_p2p.Sender.{send_complete, taken, iterate}
use risk_p2p.Sender.Transfer.{frames_of, with_id}

-- A frame without the id of its transfer, as `iterateAttachmentChunks` gives it.
abbrev pub bare : Frame → Frame
bare f = with_id [] f

abbrev pub bare_all : List Frame → List Frame
bare_all fs = map bare fs

-- What a log tells of a transfer since its chunks were last asked for: whether they were, which there
-- were, and which the channel has taken.
pub record Trace : Type 0 where
  pub begun : Bool
  pub wanted : List Frame
  pub got : List Frame

abbrev pub no_trace : Trace
no_trace = record { begun = false; wanted = []; got = [] }

module _ (limits : Limits) (ref : ℕ) where
  unfoldable pub note : Action → Trace → Trace
  note (iterate i source manifest only) tr =
      if i == ref
      then record {
        begun = true;
        wanted = bare_all (frames_of limits source manifest only);
        got = [];
      }
      else tr
  note (taken i f) tr = if i == ref then record tr { got = tr.got ++ bare f ∷ [] } else tr
  note _ tr = tr

  unfoldable pub gather : Trace → List Action → Trace
  unfolding note
  gather tr [] = tr
  gather tr (a ∷ acts) = gather (note a tr) acts

  -- All chunks that were asked for have been taken, in their order.
  pub record IsComplete (tr : Trace) : Type 0 where
    pub begun : tr.begun ≡ true
    pub all_taken : tr.got ≡ tr.wanted

  -- The transfer is said to be complete only when it is.
  unfoldable pub Honest : Trace → List Action → Type 0
  Honest tr [] = Unit
  Honest tr (send_complete i ∷ acts) = ((i == ref) ≡ true → IsComplete tr) × Honest tr acts
  Honest tr (a ∷ acts) = Honest (note a tr) acts

  -- What was taken, and the chunks that are left, are the chunks that were asked for.
  pub record IsLeft (tr : Trace) (rest : List Frame) : Type 0 where
    pub begun : tr.begun ≡ true
    pub joined : tr.got ++ bare_all rest ≡ tr.wanted

  -- What a wait of the transfer's run knows.
  unfoldable pub Fits : Trace → Task → Type 0
  Fits tr (reading i frames) = IsLeft tr frames
  Fits tr (holding i f rest) = IsLeft tr (f ∷ rest)
  Fits tr (easing i f rest) = IsLeft tr (f ∷ rest)
  Fits tr (passing i f rest) = IsLeft tr (f ∷ rest)
  Fits tr (resting i f rest) = IsLeft tr (f ∷ rest)
  Fits tr (sending i f rest) = IsLeft tr (f ∷ rest)
  Fits tr (retrying i f rest) = IsLeft tr (f ∷ rest)
  Fits tr (returned i f rest delivered) = IsLeft tr rest
  Fits tr (flushing i) = IsLeft tr []
  Fits tr _ = Unit

  -- An operation of the transfer's run.
  abbrev pub IsFaithful : Trace → Outcome → Type 0
  IsFaithful tr o = Honest tr o.actions × Every (Fits (gather tr o.actions)) o.next

  pub opening-IsFaithful :
      (reply : Reply) (tr : Trace) (s : Sender) → IsFaithful tr (go_opening limits ref reply s)
  unfolding go_opening Honest Fits gather note
  opening-IsFaithful thrown tr s = _
  opening-IsFaithful done tr s = elim (Bool-cases (s.cells ref).cancelled) [
    | inl e ↦ rw e _
    | inr e ↦
        let self : (ref == ref) ≡ true = ground arith in
        rw (e, self) ((_, (record { begun = refl; joined = refl }, _)))
  ]

  pub send_with_retry-IsFaithful :
      (f : Frame) (rest : List Frame) (tr : Trace) (s : Sender)
      → IsLeft tr (f ∷ rest)
      → IsFaithful tr (send_with_retry limits ref f rest s)
  unfolding send_with_retry Honest Fits gather note
  send_with_retry-IsFaithful f rest tr s a = elim (Bool-cases (s.cells ref).cancelled) [
    | inl e ↦ rw e _
    | inr e ↦ rw e (elim (Bool-cases (s.cells ref).paused) [
      | inl p ↦ rw p (_, (a, _))
      | inr p ↦ rw p (_, (a, _))
    ])
  ]

  pub resting-IsFaithful :
      (f : Frame) (rest : List Frame) (tr : Trace) (s : Sender)
      → IsLeft tr (f ∷ rest)
      → IsFaithful tr (go_resting limits ref f rest s)
  unfolding go_resting Honest Fits gather note
  resting-IsFaithful f rest tr s a = elim (Bool-cases (s.cells ref).paused) [
    | inl p ↦ rw p (_, (a, _))
    | inr p ↦
        rw p
          (elim (Bool-cases (s.cells ref).cancelled) [ inl e ↦ rw e _ | inr e ↦ rw e (_, (a, _)) ])
  ]

  press-IsFaithful :
      (f : Frame) (rest : List Frame) (amount : ℕ) (tr : Trace) (s : Sender)
      → IsLeft tr (f ∷ rest)
      → IsFaithful tr (press limits ref f rest amount s)
  unfolding press Honest Fits gather note
  press-IsFaithful f rest amount tr s a =
      elim (Bool-cases (leb amount limits.high_water_mark_bytes)) [
        | inl e ↦ rw e (_, (a, _))
        | inr e ↦ rw e (_, (a, _))
      ]

  pub holding-IsFaithful :
      (f : Frame) (rest : List Frame) (amount : ℕ) (tr : Trace) (s : Sender)
      → IsLeft tr (f ∷ rest)
      → IsFaithful tr (go_holding limits ref f rest amount s)
  unfolding go_holding Honest Fits gather note
  holding-IsFaithful f rest amount tr s a = elim (Bool-cases (s.cells ref).paused) [
    | inl p ↦ rw p (_, (a, _))
    | inr p ↦ rw p (elim (Bool-cases (s.cells ref).cancelled) [
      | inl e ↦ rw e _
      | inr e ↦ rw e (press-IsFaithful f rest amount tr s a)
    ])
  ]

  pub reading-IsFaithful :
      (frames : List Frame) (reply : Reply) (amount : ℕ) (tr : Trace) (s : Sender)
      → IsLeft tr frames
      → IsFaithful tr (go_reading limits ref frames reply amount s)
  unfolding go_reading Honest Fits gather note
  reading-IsFaithful frames thrown amount tr s a = _
  reading-IsFaithful [] done amount tr s a = elim (Bool-cases (s.cells ref).cancelled) [
    | inl e ↦ rw e _
    | inr e ↦ rw e (_, (a, _))
  ]
  reading-IsFaithful (f ∷ rest) done amount tr s a = elim (Bool-cases (s.cells ref).cancelled) [
    | inl e ↦ rw e _
    | inr e ↦ rw e (elim (Bool-cases (s.cells ref).paused) [
      | inl p ↦ rw p (_, (a, _))
      | inr p ↦ rw p (press-IsFaithful f rest amount tr s a)
    ])
  ]

  pub easing-IsFaithful :
      (f : Frame) (rest : List Frame) (reply : Reply) (amount : ℕ) (tr : Trace) (s : Sender)
      → IsLeft tr (f ∷ rest)
      → IsFaithful tr (go_easing limits ref f rest reply amount s)
  unfolding go_easing Honest Fits gather note
  easing-IsFaithful f rest thrown amount tr s a = _
  easing-IsFaithful f rest done amount tr s a =
      elim (Bool-cases (not limits.waits_for_low && ltb limits.low_water_mark_bytes amount)) [
        | inl e ↦ rw e (_, (a, _))
        | inr e ↦ rw e (_, (a, _))
      ]

  pub passing-IsFaithful :
      (f : Frame) (rest : List Frame) (tr : Trace) (s : Sender)
      → IsLeft tr (f ∷ rest)
      → IsFaithful tr (go_passing limits ref f rest s)
  unfolding go_passing Honest Fits gather note
  passing-IsFaithful f rest tr s a = elim (Bool-cases (s.cells ref).cancelled) [
    | inl e ↦ rw e _
    | inr e ↦ rw e (elim (Bool-cases (s.cells ref).paused) [
      | inl p ↦ rw p (_, (a, _))
      | inr p ↦ rw p (_, (a, _))
    ])
  ]

  pub sending-IsFaithful :
      (f : Frame) (rest : List Frame) (reply : Reply) (tr : Trace) (s : Sender)
      → IsLeft tr (f ∷ rest)
      → IsFaithful tr (go_sending limits ref f rest reply s)
  unfolding go_sending Honest Fits gather note
  sending-IsFaithful f rest done tr s a =
      let self : (ref == ref) ≡ true = ground arith in
      rw self (
        _,
        (
          record {
            begun = a.begun;
            joined = append_assoc tr.got (bare f ∷ []) (bare_all rest) ∙ a.joined;
          },
          _,
        ),
      )
  sending-IsFaithful f rest thrown tr s a =
      elim (Bool-cases (ltb limits.retry_limit ((s.cells ref).retry_count + 1))) [
        | inl e ↦ rw e _
        | inr e ↦ rw e (_, (a, _))
      ]

  pub returned-IsFaithful :
      (f : Frame) (rest : List Frame) (v : Verdict) (tr : Trace) (s : Sender)
      → Fits tr (returned ref f rest v)
      → IsFaithful tr (go_returned limits ref f rest v s)
  unfolding go_returned Honest Fits gather note
  returned-IsFaithful f rest gave_up tr s a = _
  returned-IsFaithful f rest delivered tr s a = elim (Bool-cases (s.cells ref).cancelled) [
    | inl e ↦ rw e _
    | inr e ↦ rw e (_, (a, _))
  ]

  pub flushing-IsFaithful :
      (reply : Reply) (tr : Trace) (s : Sender)
      → IsLeft tr []
      → IsFaithful tr (go_flushing limits ref reply s)
  unfolding go_flushing Honest Fits gather note
  flushing-IsFaithful thrown tr s a = _
  flushing-IsFaithful done tr s a = elim (Bool-cases (s.cells ref).cancelled) [
    | inl e ↦ rw e _
    | inr e ↦
        rw e (
          ((λ h. record { begun = a.begun; all_taken = sym (append-nil tr.got) ∙ a.joined }), _),
          _,
        )
  ]
