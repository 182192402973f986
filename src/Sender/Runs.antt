-- ===== src/Sender/Runs.antt =====
-- packages/rtc/src/file-transfer.ts: the sender's operations in any order. Calls and the ends of waits
-- come as events.
use risk_p2p.Prelude.{ℕ, Option, none, some, List, [], ◌∷◌, ◌++◌, get_elem?, remove_at}
use risk_p2p.Prelude.Text.{Text}
use risk_p2p.Chunks.{AttachmentManifest}
use risk_p2p.Sender.{
  Sender, Limits, offered, Action, Task, offering, opening, flushing, completing, failing,
  reporting, settling, reading, holding, easing, passing, resting, sending, retrying, returned,
  Reply, done, thrown, Outcome, ends, emit, accept_and_start, resume, offer, pause, cancel, confirm,
}
use risk_p2p.Sender.Transfer.{
  go_opening, go_reading, go_holding, go_easing, go_passing, send_with_retry, go_resting,
  go_sending, go_returned, go_flushing, go_completing, go_failing, go_settling, settle,
}

pub data Event : Type 0 where
  offers : Text → Text → List ℕ → AttachmentManifest → Event
  accepts resumes : Text → Option (List ℕ) → Event
  pauses cancels confirms : Text → Event
  replied : ℕ → Reply → ℕ → Event

pub record System : Type 0 where
  pub sender : Sender
  pub tasks : List Task
  pub log : List Action

unfoldable pub go_offering : ℕ → Reply → Sender → Outcome
go_offering ref thrown s = ends s []
go_offering ref done s = ends s (emit ref offered s ∷ [])

module _ (limits : Limits) where
  -- What an operation does when its wait ends.
  unfoldable pub go_on : Task → Reply → ℕ → Sender → Outcome
  go_on (offering ref) reply amount s = go_offering ref reply s
  go_on (opening ref) reply amount s = go_opening limits ref reply s
  go_on (reading ref frames) reply amount s = go_reading limits ref frames reply amount s
  go_on (holding ref f rest) reply amount s = go_holding limits ref f rest amount s
  go_on (easing ref f rest) reply amount s = go_easing limits ref f rest reply amount s
  go_on (passing ref f rest) reply amount s = go_passing limits ref f rest s
  go_on (resting ref f rest) reply amount s = go_resting limits ref f rest s
  go_on (sending ref f rest) reply amount s = go_sending limits ref f rest reply s
  go_on (retrying ref f rest) reply amount s = send_with_retry limits ref f rest s
  go_on (returned ref f rest verdict) reply amount s = go_returned limits ref f rest verdict s
  go_on (flushing ref) reply amount s = go_flushing limits ref reply s
  go_on (completing ref) reply amount s = go_completing limits ref reply s
  go_on (failing ref) reply amount s = go_failing limits ref s
  go_on (reporting ref) reply amount s = settle ref s
  go_on (settling ref) reply amount s = go_settling limits ref s

  -- An operation has run up to its next waits; `tasks` are the others.
  unfoldable pub after : Outcome → List Task → List Action → System
  after o tasks log = record { sender = o.sender; tasks = o.next ++ tasks; log = log ++ o.actions }

  unfoldable pub go_on_at : ℕ → Reply → ℕ → Option Task → System → System
  unfolding after
  go_on_at i reply amount none y = y
  go_on_at i reply amount (some t) y =
      after (go_on t reply amount y.sender) (remove_at i y.tasks) y.log

  unfoldable pub call : Event → Sender → Outcome
  call (offers id peer source manifest) s = offer id peer source manifest s
  call (accepts id missing) s = accept_and_start limits id missing s
  call (resumes id missing) s = resume limits id missing s
  call (pauses id) s = pause id s
  call (cancels id) s = cancel id s
  call (confirms id) s = confirm id s
  call (replied i reply amount) s = ends s []

  unfoldable pub step : Event → System → System
  step (replied i reply amount) y = go_on_at i reply amount (get_elem? y.tasks i) y
  step e y = after (call e y.sender) y.tasks y.log

  unfoldable pub run : List Event → System → System
  run [] y = y
  run (e ∷ es) y = run es (step e y)
