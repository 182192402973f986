-- ===== src/Receiver/Runs.antt =====
-- packages/rtc/src/file-receiver.ts: the handlers in any order. Messages, calls of the user and the
-- ends of waits come as events.
use risk_p2p.Prelude.{ℕ, Option, none, some, List, [], ◌∷◌, ◌++◌, get_elem?, remove_at}
use risk_p2p.Prelude.Text.{Text}
use risk_p2p.Prelude.Map.{lookup}
use risk_p2p.Attachments.Checks.{Host}
use risk_p2p.Receiver.{
  transferring, paused, Receiver, Options, Offer, Piece, Effect, Reply, by_user, Task,
  deferring_reject, deferring_discard, noticing, deciding, abandoning, preparing, listing,
  sending_accept, granted, hashing, asking, writing, ending_piece, rejecting_sent,
  rejecting_discard, cancelling_wait, cancelling_discard, completing_wait, completing_list,
  finalizing, completing_sent, Outcome, ends,
}
use risk_p2p.Receiver.Offers.{
  handle_offer, start_accept, go_preparing, go_listing, go_sending_accept, go_deferring_reject,
  go_deferring_discard, go_noticing, go_deciding, go_abandoning, start_reject, go_rejecting_sent,
  go_rejecting_discard,
}
use risk_p2p.Receiver.Pieces.{
  handle_chunk, go_granted, go_hashing, go_asking, go_writing, go_ending_piece,
}
use risk_p2p.Receiver.Endings.{
  update_state, cancel, go_cancelling_wait, go_cancelling_discard, complete, go_completing_wait,
  go_completing_list, go_finalizing, go_completing_sent,
}

-- The messages that `handleControl` does something for.
pub data Control : Type 0 where
  file_offer file_manifest : Offer → Control
  file_pause file_resume file_cancel : Text → Control
  file_complete : Text → Text → Control

pub data Event : Type 0 where
  control : Text → Control → Event
  piece : Text → Piece → Event
  user_accepts user_cancels : Text → Event
  user_rejects : Text → Option Text → Event
  replied : ℕ → Reply → Event

pub record System : Type 0 where
  pub receiver : Receiver
  pub tasks : List Task
  pub log : List Effect

pub record Setting : Type 0 where
  pub host : Host
  pub options : Options
  pub sha256 : List ℕ → Text
  pub lower : Text → Text

module _ (setting : Setting) where
  unfoldable pub ensure_prepared : Text → Offer → Receiver → Outcome
  ensure_prepared peer offer r = elim (lookup offer.offer_id r.transfers) [
    | some ref ↦ ends r []
    | none ↦ handle_offer setting.host setting.options peer offer r
  ]

  unfoldable pub handle_control : Text → Control → Receiver → Outcome
  unfolding ensure_prepared
  handle_control peer (file_offer offer) r = handle_offer setting.host setting.options peer offer r
  handle_control peer (file_manifest offer) r = ensure_prepared peer offer r
  handle_control peer (file_pause id) r = update_state id paused r
  handle_control peer (file_resume id) r = update_state id transferring r
  handle_control peer (file_cancel id) r = cancel id r
  handle_control peer (file_complete id hash) r = complete peer id hash r

  -- What a handler does when its wait ends.
  unfoldable pub go_on : Task → Reply → Receiver → Outcome
  go_on (deferring_reject peer offer ref) =
      go_deferring_reject setting.host setting.options peer offer ref
  go_on (deferring_discard peer offer ref) =
      go_deferring_discard setting.host setting.options peer offer ref
  go_on (noticing peer id ref) = go_noticing peer id ref
  go_on (deciding peer id ref) = go_deciding peer id ref
  go_on (abandoning peer id drops) = go_abandoning peer id drops
  go_on (preparing caller ref) = go_preparing caller ref
  go_on (listing caller ref) = go_listing caller ref
  go_on (sending_accept caller ref) = go_sending_accept caller ref
  go_on (granted peer f ref) = go_granted setting.sha256 setting.lower peer f ref
  go_on (hashing peer f ref at) = go_hashing setting.sha256 setting.lower peer f ref at
  go_on (asking peer f ref at) = go_asking peer f ref at
  go_on (writing peer f ref at) = go_writing peer f ref at
  go_on (ending_piece f ref) = go_ending_piece f ref
  go_on (rejecting_sent id ref) = go_rejecting_sent id ref
  go_on (rejecting_discard id ref) = go_rejecting_discard id ref
  go_on (cancelling_wait id) = go_cancelling_wait id
  go_on (cancelling_discard id) = go_cancelling_discard id
  go_on (completing_wait peer ref hash) = go_completing_wait peer ref hash
  go_on (completing_list peer ref hash) = go_completing_list peer ref hash
  go_on (finalizing peer ref hash) = go_finalizing setting.lower peer ref hash
  go_on (completing_sent peer ref hash) = go_completing_sent peer ref hash

  -- A handler has run up to its next wait; `tasks` are the others that wait.
  unfoldable pub after : Outcome → List Task → List Effect → System
  after o tasks log = record {
    receiver = o.receiver;
    tasks = elim o.next [ none ↦ tasks | some t ↦ t ∷ tasks ];
    log = log ++ o.effects;
  }

  unfoldable pub go_on_at : ℕ → Reply → Option Task → System → System
  unfolding after
  go_on_at i reply none y = y
  go_on_at i reply (some t) y = after (go_on t reply y.receiver) (remove_at i y.tasks) y.log

  unfoldable pub step : Event → System → System
  step (control peer c) y = after (handle_control peer c y.receiver) y.tasks y.log
  step (piece peer f) y = after (handle_chunk peer f y.receiver) y.tasks y.log
  step (user_accepts id) y = after (start_accept by_user id y.receiver) y.tasks y.log
  step (user_cancels id) y = after (cancel id y.receiver) y.tasks y.log
  step (user_rejects id reason) y = after (start_reject id reason y.receiver) y.tasks y.log
  step (replied i reply) y = go_on_at i reply (get_elem? y.tasks i) y

  unfoldable pub run : List Event → System → System
  run [] y = y
  run (e ∷ es) y = run es (step e y)
