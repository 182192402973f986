-- ===== src/Sender.antt =====
-- packages/rtc/src/file-transfer.ts, `AttachmentTransferSender`: the files that are offered to peers,
-- how many of them are sent at once, and the calls of the user. The queue, the map of active transfers
-- and the runs share objects, so an object is a number into `cells`. An operation gives what it does
-- up to its next `await`, and the waits that it starts; Sender.Runs goes on from there. `pumping` is
-- left out: `pump` has no `await`, so that it is over before it can be called again. A call for an
-- unknown transfer throws and changes nothing. `startedAt`, `updatedAt` and the texts of errors are left
-- out.
pub mod Options
pub mod Transfer
pub mod Runs
pub mod Pump
pub mod Bounds
pub mod Cancelled
pub mod Silence
pub mod Single
pub mod Counts
pub mod Unique
pub mod Complete
pub mod Aside
pub mod Whole
use risk_p2p.Prelude.{
  ℕ, zero, suc, ◌+◌, ◌*◌, min, Bool, true, false, not, ◌&&◌, ◌||◌, Option, none, some, List, [],
  ◌∷◌, ◌++◌, ltb, leb, ◌==◌, length, any, find, if◌then◌else◌,
}
use risk_p2p.Prelude.Text.{Text, text_eq}
use risk_p2p.Prelude.Map.{Map, lookup, insert, delete}
use risk_p2p.Prelude.Js.{Number, nat, is_safe, above}
use risk_p2p.Frames.{Frame}
use risk_p2p.Chunks.{AttachmentManifest}

-- `QueuedTransfer`
pub record Queued : Type 0 where
  pub transfer_id : Text
  pub peer_id : Text
  pub source : List ℕ
  pub manifest : AttachmentManifest
  pub missing_chunks : Option (List ℕ)
  pub paused : Bool
  pub cancelled : Bool
  pub awaiting_verification : Bool
  pub retry_count : ℕ
  pub bytes_transferred : ℕ

pub record Sender : Type 0 where
  pub cells : ℕ → Queued
  pub next_ref : ℕ
  pub queue : List ℕ
  pub active : Map ℕ

-- The fields that the constructor fills, and the parameters of the model: `sha256` hashes a chunk.
-- An option `getBufferedAmount` that is missing counts as one that answers 0.
pub record Limits : Type 0 where
  pub max_concurrent_transfers : ℕ
  pub high_water_mark_bytes : ℕ
  pub low_water_mark_bytes : ℕ
  pub retry_limit : ℕ
  pub retry_delay_ms : ℕ
  pub waits_for_low : Bool
  pub sha256 : List ℕ → Text

pub data Progress : Type 0 where
  offered queued transferring paused verifying completed failed cancelled : Progress

-- What is called outside, with the transfer for which it is called. `iterate` is the call of
-- `iterateAttachmentChunks`, and `taken` marks the return of `sendChunk`.
pub data Action : Type 0 where
  send_offer send_manifest send_complete : ℕ → Action
  send_error : ℕ → Bool → Action
  send_chunk taken : ℕ → Frame → Action
  iterate : ℕ → List ℕ → AttachmentManifest → Option (List ℕ) → Action
  delay_ms : ℕ → ℕ → Action
  progress : ℕ → Queued → Progress → Action

-- How `sendWithRetry` returns.
pub data Verdict : Type 0 where
  delivered gave_up : Verdict

-- The waits of `offer` and of `run`, each with the frames that are still to be sent.
pub data Task : Type 0 where
  offering opening flushing completing failing reporting settling : ℕ → Task
  reading : ℕ → List Frame → Task
  holding easing passing resting sending retrying : ℕ → Frame → List Frame → Task
  returned : ℕ → Frame → List Frame → Verdict → Task

pub data Reply : Type 0 where
  done thrown : Reply

pub record Outcome : Type 0 where
  pub sender : Sender
  pub actions : List Action
  pub next : List Task

abbrev pub ends : Sender → List Action → Outcome
ends s acts = record { sender = s; actions = acts; next = [] }

abbrev pub waits : Sender → List Action → Task → Outcome
waits s acts t = record { sender = s; actions = acts; next = t ∷ [] }

unfoldable pub update : ℕ → Queued → Sender → Sender
update ref t s = record s { cells = λ i. if i == ref then t else s.cells i }

-- `emitProgress`
abbrev pub emit : ℕ → Progress → Sender → Action
emit ref p s = progress ref (s.cells ref) p

unfoldable pub find_transfer : Text → Sender → Option ℕ
find_transfer id s = elim (find (λ i. text_eq (s.cells i).transfer_id id) s.queue) [
  | some ref ↦ some ref
  | none ↦ lookup id s.active
]

unfoldable pub remove_ref : ℕ → List ℕ → List ℕ
remove_ref ref [] = []
remove_ref ref (i ∷ js) = let rest = remove_ref ref js in if i == ref then js else i ∷ rest

unfoldable pub remove_transfer : ℕ → Sender → Sender
remove_transfer ref s = record s { queue = remove_ref ref s.queue }

unfoldable pub is_active : Text → Sender → Bool
is_active id s = elim (lookup id s.active) [ none ↦ false | some ref ↦ true ]

-- The transfers that `pump` may start.
unfoldable pub startable : Sender → ℕ → Bool
unfolding is_active
startable s ref =
    let t = s.cells ref in
    not t.cancelled
    && not t.paused
    && not t.awaiting_verification
    && not (is_active t.transfer_id s)

-- The body of the loop of `pump`: `run` goes up to its first `await`.
unfoldable pub start : ℕ → Sender → Outcome
start ref s =
    waits (record s { active = insert (s.cells ref).transfer_id ref s.active })
      (send_manifest ref ∷ []) (opening ref)

abbrev pub then_do : Outcome → Outcome → Outcome
then_do o p = record {
  sender = p.sender;
  actions = o.actions ++ p.actions;
  next = o.next ++ p.next;
}

module _ (limits : Limits) where
  -- The loop of `pump`, with the rounds that are left.
  unfoldable pub pump_rounds : ℕ → Sender → Outcome
  unfolding startable start
  pump_rounds zero s = ends s []
  pump_rounds (suc rounds) s =
      if not (ltb (length s.active) limits.max_concurrent_transfers)
      then ends s []
      else elim (find (startable s) s.queue) [
        | none ↦ ends s []
        | some ref ↦ let o = start ref s in then_do o (pump_rounds rounds o.sender)
      ]

  unfoldable pub pump : Sender → Outcome
  unfolding pump_rounds
  pump s = pump_rounds limits.max_concurrent_transfers s

  -- A call that has changed a transfer tells its progress and starts what it can.
  unfoldable pub announce_and_pump : ℕ → Queued → Sender → Outcome
  unfolding pump update
  announce_and_pump ref t s =
      let s1 = update ref t s in then_do (ends s1 (emit ref queued s1 ∷ [])) (pump s1)

  unfoldable pub accept_and_start : Text → Option (List ℕ) → Sender → Outcome
  unfolding announce_and_pump
  accept_and_start id missing s = elim (find_transfer id s) [
    | none ↦ ends s []
    | some ref ↦
        announce_and_pump ref
          (record (s.cells ref) {
            missing_chunks = missing;
            paused = false;
            awaiting_verification = false;
          })
          s
  ]

  unfoldable pub resume : Text → Option (List ℕ) → Sender → Outcome
  unfolding announce_and_pump
  resume id missing s = elim (find_transfer id s) [
    | none ↦ ends s []
    | some ref ↦
        announce_and_pump ref
          (record (s.cells ref) {
            paused = false;
            awaiting_verification = false;
            missing_chunks = elim missing [
              | none ↦ (s.cells ref).missing_chunks
              | some js ↦ some js
            ];
          })
          s
  ]

-- `crypto.randomUUID()` gives `id`.
unfoldable pub offer : Text → Text → List ℕ → AttachmentManifest → Sender → Outcome
unfolding update
offer id peer source manifest s =
    let ref = s.next_ref in
    let t : Queued = record {
      transfer_id = id;
      peer_id = peer;
      source = source;
      manifest = manifest;
      missing_chunks = none;
      paused = false;
      cancelled = false;
      awaiting_verification = false;
      retry_count = 0;
      bytes_transferred = 0;
    } in
    waits (record (update ref t s) { next_ref = ref + 1; queue = s.queue ++ ref ∷ [] })
      (send_offer ref ∷ []) (offering ref)

unfoldable pub pause : Text → Sender → Outcome
unfolding update
pause id s = elim (find_transfer id s) [
  | none ↦ ends s []
  | some ref ↦
      let s1 = update ref (record (s.cells ref) { paused = true }) s in
      ends s1 (emit ref paused s1 ∷ [])
]

unfoldable pub cancel : Text → Sender → Outcome
unfolding update remove_transfer is_active
cancel id s = elim (find_transfer id s) [
  | none ↦ ends s []
  | some ref ↦
      let t = record (s.cells ref) {
        cancelled = true;
        paused = false;
        awaiting_verification = false;
      } in
      let s1 = update ref t s in
      ends (if is_active id s1 then s1 else remove_transfer ref s1) (emit ref cancelled s1 ∷ [])
]

unfoldable pub confirm : Text → Sender → Outcome
unfolding update remove_transfer
confirm id s = elim (find_transfer id s) [
  | none ↦ ends s []
  | some ref ↦
      let t = record (s.cells ref) {
        awaiting_verification = false;
        bytes_transferred = (s.cells ref).manifest.size;
      } in
      let s1 = update ref t s in ends (remove_transfer ref s1) (emit ref completed s1 ∷ [])
]
