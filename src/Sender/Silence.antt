-- ===== src/Sender/Silence.antt =====
-- packages/rtc/src/file-transfer.ts: a cancelled transfer of the sender over all orders of events.
use mathlib.Core.List.{append_assoc, append-nil}
use risk_p2p.Prelude.{
  ℕ, ◌<◌, ◌≡◌, refl, ap, sym, true, false, Option, none, some, List, [], ◌∷◌, ◌++◌, arith, ltb,
  ◌==◌, ltb→lt, ◌∙◌, &&_iff, get_elem?, remove_at, inl, inr, Option-cases, all, all-append,
}
use risk_p2p.Prelude.Text.{Text}
use risk_p2p.Chunks.{AttachmentManifest}
use risk_p2p.Sender.{
  Queued, Sender, Limits, Action, Task, Reply, Outcome, update, remove_transfer, find_transfer,
  announce_and_pump, accept_and_start, resume, offer, pause, cancel, confirm,
}
use risk_p2p.Sender.Runs.{
  Event, offers, accepts, resumes, pauses, cancels, confirms, replied, System, go_on, after,
  go_on_at, call, step, run,
}
use risk_p2p.Sender.Cancelled.{
  is_cancelled, is_quiet, IsQuiet, unmoved, removed_keeps, updated_cancelled, pump-IsQuiet,
  go_on-IsQuiet,
}

module _ (limits : Limits) (ref : ℕ) where
  announce-IsQuiet :
      (i : ℕ) (t : Queued) (s : Sender)
      → ((s.cells i).cancelled ≡ true → t.cancelled ≡ true)
      → is_cancelled ref s ≡ true
      → IsQuiet ref (announce_and_pump limits i t s)
  unfolding announce_and_pump
  announce-IsQuiet i t s same h =
      ground (arith, pump-IsQuiet limits ref (update i t s) (unmoved ref i t s same h))

  offer-IsQuiet :
      (id peer : Text) (source : List ℕ) (manifest : AttachmentManifest) (s : Sender)
      → is_cancelled ref s ≡ true
      → IsQuiet ref (offer id peer source manifest s)
  unfolding offer is_cancelled update
  offer-IsQuiet id peer source manifest s h =
      let both = (&&_iff (s.cells ref).cancelled (ltb ref s.next_ref)).0 h in
      let old = ltb→lt ref s.next_ref both.1 in
      let differs : (ref == s.next_ref) ≡ false = ground arith in rw differs (ground arith)

  pause-IsQuiet : (id : Text) (s : Sender) → is_cancelled ref s ≡ true → IsQuiet ref (pause id s)
  unfolding pause
  pause-IsQuiet id s h = elim (Option-cases (find_transfer id s)) [
    | inl e ↦ rw (e, pause) (ground arith)
    | inr (i, e) ↦
        let t = record (s.cells i) { paused = true } in
        rw (e, pause) (ground (arith, unmoved ref i t s (λ c. c) h))
  ]

  cancel-IsQuiet : (id : Text) (s : Sender) → is_cancelled ref s ≡ true → IsQuiet ref (cancel id s)
  unfolding cancel remove_transfer
  cancel-IsQuiet id s h = elim (Option-cases (find_transfer id s)) [
    | inl e ↦ rw (e, cancel) (ground arith)
    | inr (i, e) ↦
        let t = record (s.cells i) {
          cancelled = true;
          paused = false;
          awaiting_verification = false;
        } in
        rw (e, cancel)
          (ground (arith, unmoved ref i t s (λ c. refl) h, removed_keeps ref i (update i t s)))
  ]

  confirm-IsQuiet :
      (id : Text) (s : Sender) → is_cancelled ref s ≡ true → IsQuiet ref (confirm id s)
  unfolding confirm remove_transfer
  confirm-IsQuiet id s h = elim (Option-cases (find_transfer id s)) [
    | inl e ↦ rw (e, confirm) (ground arith)
    | inr (i, e) ↦
        let t = record (s.cells i) {
          awaiting_verification = false;
          bytes_transferred = (s.cells i).manifest.size;
        } in
        rw (e, confirm)
          (ground (arith, unmoved ref i t s (λ c. c) h, removed_keeps ref i (update i t s)))
  ]

  call-IsQuiet :
      (e : Event) (s : Sender) → is_cancelled ref s ≡ true → IsQuiet ref (call limits e s)
  unfolding call accept_and_start resume
  call-IsQuiet (offers id peer source manifest) s h = offer-IsQuiet id peer source manifest s h
  call-IsQuiet (accepts id missing) s h = elim (Option-cases (find_transfer id s)) [
    | inl e ↦ rw (e, accept_and_start) (ground arith)
    | inr (i, e) ↦ rw (e, accept_and_start) (announce-IsQuiet i _ s (λ c. c) h)
  ]
  call-IsQuiet (resumes id missing) s h = elim (Option-cases (find_transfer id s)) [
    | inl e ↦ rw (e, resume) (ground arith)
    | inr (i, e) ↦ rw (e, resume) (announce-IsQuiet i _ s (λ c. c) h)
  ]
  call-IsQuiet (pauses id) s h = pause-IsQuiet id s h
  call-IsQuiet (cancels id) s h = cancel-IsQuiet id s h
  call-IsQuiet (confirms id) s h = confirm-IsQuiet id s h
  call-IsQuiet (replied i reply amount) s h = ground arith

  -- The transfer is cancelled, and the log behind the place where it was is quiet.
  pub record IsSilent (before : List Action) (y : System) : Type 0 where
    pub stays : is_cancelled ref y.sender ≡ true
    pub later : List Action
    pub split : y.log ≡ before ++ later
    pub quiet : all (is_quiet ref) later ≡ true

  after-IsSilent :
      (before : List Action) (o : Outcome) (tasks : List Task) (y : System)
      → IsSilent before y
      → IsQuiet ref o
      → IsSilent before (after limits o tasks y.log)
  unfolding after
  after-IsSilent before o tasks y a q = record {
    stays = ((&&_iff (is_cancelled ref o.sender) (all (is_quiet ref) o.actions)).0 q).0;
    later = a.later ++ o.actions;
    split = ap (λ l. l ++ o.actions) a.split ∙ append_assoc before a.later o.actions;
    quiet = ground (arith, all-append (is_quiet ref) a.later o.actions, a.quiet);
  }

  reply-IsSilent :
      (i : ℕ) (reply : Reply) (amount : ℕ) (o : Option Task) (before : List Action) (y : System)
      → IsSilent before y
      → IsSilent before (go_on_at limits i reply amount o y)
  unfolding go_on_at
  reply-IsSilent i reply amount none before y a = a
  reply-IsSilent i reply amount (some t) before y a =
      after-IsSilent before (go_on limits t reply amount y.sender) (remove_at i y.tasks) y a
        (go_on-IsQuiet limits ref t reply amount y.sender a.stays)

  called-IsSilent :
      (e : Event) (before : List Action) (y : System)
      → IsSilent before y
      → IsSilent before (after limits (call limits e y.sender) y.tasks y.log)
  called-IsSilent e before y a =
      after-IsSilent before (call limits e y.sender) y.tasks y a (call-IsQuiet e y.sender a.stays)

  step-IsSilent :
      (e : Event) (before : List Action) (y : System)
      → IsSilent before y
      → IsSilent before (step limits e y)
  unfolding step
  step-IsSilent (replied i reply amount) before y a =
      reply-IsSilent i reply amount (get_elem? y.tasks i) before y a
  step-IsSilent e before y a = called-IsSilent e before y a

  run-IsSilent :
      (es : List Event) (before : List Action) (y : System)
      → IsSilent before y
      → IsSilent before (run limits es y)
  unfolding run
  run-IsSilent [] before y a = a
  run-IsSilent (e ∷ es) before y a =
      run-IsSilent es before (step limits e y) (step-IsSilent e before y a)

  cancel_cancels :
      (id : Text) (s : Sender)
      → find_transfer id s ≡ some ref
      → ref < s.next_ref
      → is_cancelled ref (cancel id s).sender ≡ true
  unfolding cancel
  cancel_cancels id s e lt =
      let t = record (s.cells ref) {
        cancelled = true;
        paused = false;
        awaiting_verification = false;
      } in
      let made : is_cancelled ref (update ref t s) ≡ true = updated_cancelled ref t s lt in
      rw (e, cancel) (ground (arith, made, removed_keeps ref ref (update ref t s)))

  -- After `cancel` of a transfer that the sender knows, whatever events come in whatever order, the
  -- sender sends no manifest, no chunk and no `file.complete` for it.
  pub cancel-IsSilent :
      (id : Text) (es : List Event) (y : System)
      → find_transfer id y.sender ≡ some ref
      → ref < y.sender.next_ref
      → IsSilent (step limits (cancels id) y).log (run limits (cancels id ∷ es) y)
  unfolding run step call after
  cancel-IsSilent id es y e lt =
      run-IsSilent es (step limits (cancels id) y).log (step limits (cancels id) y) (record {
        stays = cancel_cancels id y.sender e lt;
        later = [];
        split = sym (append-nil (step limits (cancels id) y).log);
        quiet = refl;
      })
