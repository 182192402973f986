-- ===== src/Receiver/Safety.antt =====
-- What packages/rtc/src/file-receiver.ts writes and what it reports as complete, over all orders of
-- its events.
mod Handlers
use risk_p2p.Prelude.{
  ℕ, ◌≡◌, refl, sym, ◌∙◌, ap, Bool, true, false, not, ◌&&◌, ◌||◌, Option, none, some, List, [], ◌∷◌,
  ◌++◌, arith, ltb, leb, ◌==◌, if◌then◌else◌, all, get_elem?, remove_at, all-remove_at, all_at,
  all-append, subst, length, take,
}
use risk_p2p.Prelude.Text.{Text, text_eq}
use risk_p2p.Prelude.TextSet.{has}
use risk_p2p.Prelude.Map.{lookup}
use risk_p2p.Attachments.Checks.{Host}
use risk_p2p.Attachments.Manifest.{validate_attachment_manifest}
use risk_p2p.Chunks.{AttachmentManifest, verify_attachment_chunk}
use risk_p2p.Receiver.{
  TransferState, offered, accepted, transferring, paused, verifying, completed, failed, cancelled,
  Transfer, Receiver, Options, Offer, Piece, to_frame, Reason, too_many_transfers, file_too_large,
  storage_unavailable, bad_manifest, given, Effect, send_accept, send_reject, send_need,
  send_complete, send_error, prepare, has_chunk, write_chunk, finalize, discard,
  list_missing_chunks, on_offer, auto_accept, offer_event, progress_event, Reply, done, thrown,
  answered, indices, digest, Caller, by_user, by_offer, Task, deferring_reject, deferring_discard,
  noticing, deciding, abandoning, preparing, listing, sending_accept, granted, hashing, asking,
  writing, ending_piece, rejecting_sent, rejecting_discard, cancelling_wait, cancelling_discard,
  completing_wait, completing_list, finalizing, completing_sent, Outcome, ends, waits, update,
  set_state, drop_transfer, is_at, is_open, is_receiving, max_missing_chunks_per_request, has_index,
  remove_index,
}
use risk_p2p.Receiver.Offers.{
  handle_offer, validate_offer, start_accept, accept_failed, go_preparing, go_listing,
  go_sending_accept, go_deferring_reject, go_deferring_discard, go_noticing, go_deciding,
  go_abandoning, start_reject, go_rejecting_sent, go_rejecting_discard, first_offered,
}
use risk_p2p.Receiver.Pieces.{
  handle_chunk, go_granted, go_hashing, go_asking, go_writing, go_ending_piece, refuse_piece,
}
use risk_p2p.Receiver.Endings.{
  update_state, cancel, go_cancelling_wait, go_cancelling_discard, complete, finish,
  complete_failed, go_completing_wait, go_completing_list, go_finalizing, go_completing_sent,
}
use risk_p2p.Receiver.Runs.{
  System, Setting, Event, Control, control, piece, user_accepts, user_cancels, user_rejects,
  replied, file_offer, file_manifest, file_pause, file_resume, file_cancel, file_complete,
  ensure_prepared, handle_control, go_on, after, go_on_at, step, run,
}
use Handlers.{
  is_verified, is_safe, is_safe_task, is_safe_next, IsSafeOutcome, handle_offer_safe,
  deferring_reject_safe, deferring_discard_safe, start_accept_safe, preparing_safe, listing_safe,
  sending_accept_safe, noticing_safe, deciding_safe, handle_chunk_safe, granted_safe, hashing_safe,
  complete_safe, cancel_safe, update_state_safe, start_reject_safe, completing_wait_safe,
  completing_list_safe, finalizing_safe, completing_sent_safe,
}

module _ (setting : Setting) where
  go_on_safe :
      (t : Task) (reply : Reply) (r : Receiver)
      → is_safe_task setting t ≡ true
      → IsSafeOutcome setting (go_on setting t reply r)
  unfolding go_on go_abandoning go_asking go_writing go_ending_piece go_rejecting_sent
      go_rejecting_discard go_cancelling_wait go_cancelling_discard
  go_on_safe (deferring_reject peer offer ref) reply r h =
      deferring_reject_safe setting peer offer ref reply r
  go_on_safe (deferring_discard peer offer ref) reply r h =
      deferring_discard_safe setting peer offer ref reply r
  go_on_safe (noticing peer id ref) reply r h = noticing_safe setting peer id ref reply r
  go_on_safe (deciding peer id ref) reply r h = deciding_safe setting peer id ref reply r
  go_on_safe (preparing caller ref) reply r h = preparing_safe setting caller ref reply r
  go_on_safe (listing caller ref) reply r h = listing_safe setting caller ref reply r
  go_on_safe (sending_accept caller ref) reply r h = sending_accept_safe setting caller ref reply r
  go_on_safe (granted peer f ref) reply r h = granted_safe setting peer f ref reply r
  go_on_safe (hashing peer f ref at) reply r h = hashing_safe setting peer f ref at reply r
  go_on_safe (completing_wait peer ref hash) reply r h =
      completing_wait_safe setting peer ref hash reply r
  go_on_safe (completing_list peer ref hash) reply r h =
      completing_list_safe setting peer ref hash reply r
  go_on_safe (finalizing peer ref hash) reply r h = finalizing_safe setting peer ref hash reply r
  go_on_safe (completing_sent peer ref hash) reply r h =
      completing_sent_safe setting peer ref hash reply r
  go_on_safe (abandoning peer id drops) reply r h = ground arith
  go_on_safe (asking peer f ref at) reply r h = ground arith
  go_on_safe (writing peer f ref at) reply r h = ground arith
  go_on_safe (ending_piece f ref) reply r h = ground arith
  go_on_safe (rejecting_sent id ref) reply r h = ground arith
  go_on_safe (rejecting_discard id ref) reply r h = ground arith
  go_on_safe (cancelling_wait id) reply r h = ground arith
  go_on_safe (cancelling_discard id) reply r h = ground arith

  -- Nothing but verified pieces has been written, and nothing else can be by the handlers that wait.
  pub record IsSafe (y : System) : Type 0 where
    pub written : all (is_safe setting) y.log ≡ true
    pub waiting : all (is_safe_task setting) y.tasks ≡ true

  after-IsSafe :
      (o : Outcome) (tasks : List Task) (log : List Effect)
      → IsSafeOutcome setting o
      → all (is_safe_task setting) tasks ≡ true
      → all (is_safe setting) log ≡ true
      → IsSafe (after setting o tasks log)
  unfolding after
  after-IsSafe o tasks log safe waiting written = record {
    written = ground (arith, all-append (is_safe setting) log o.effects);
    waiting = ground arith;
  }

  control_safe :
      (peer : Text) (c : Control) (r : Receiver)
      → IsSafeOutcome setting (handle_control setting peer c r)
  unfolding handle_control ensure_prepared
  control_safe peer (file_offer offer) r = handle_offer_safe setting peer offer r
  control_safe peer (file_manifest offer) r = ground (arith, handle_offer_safe setting peer offer r)
  control_safe peer (file_pause id) r = update_state_safe setting id paused r
  control_safe peer (file_resume id) r = update_state_safe setting id transferring r
  control_safe peer (file_cancel id) r = cancel_safe setting id r
  control_safe peer (file_complete id hash) r = complete_safe setting peer id hash r

  reply-IsSafe :
      (i : ℕ) (reply : Reply) (o : Option Task) (y : System)
      → get_elem? y.tasks i ≡ o
      → IsSafe y
      → IsSafe (go_on_at setting i reply o y)
  unfolding go_on_at
  reply-IsSafe i reply none y e a = a
  reply-IsSafe i reply (some t) y e a =
      after-IsSafe (go_on setting t reply y.receiver) (remove_at i y.tasks) y.log
        (go_on_safe t reply y.receiver (all_at (is_safe_task setting) i y.tasks t a.waiting e))
        (all-remove_at (is_safe_task setting) i y.tasks a.waiting) a.written

  pub step-IsSafe : (e : Event) (y : System) → IsSafe y → IsSafe (step setting e y)
  unfolding step
  step-IsSafe (control peer c) y a =
      after-IsSafe (handle_control setting peer c y.receiver) y.tasks y.log
        (control_safe peer c y.receiver) a.waiting a.written
  step-IsSafe (piece peer f) y a =
      after-IsSafe (handle_chunk peer f y.receiver) y.tasks y.log
        (handle_chunk_safe setting peer f y.receiver) a.waiting a.written
  step-IsSafe (user_accepts id) y a =
      after-IsSafe (start_accept by_user id y.receiver) y.tasks y.log
        (start_accept_safe setting by_user id y.receiver) a.waiting a.written
  step-IsSafe (user_cancels id) y a =
      after-IsSafe (cancel id y.receiver) y.tasks y.log (cancel_safe setting id y.receiver)
        a.waiting a.written
  step-IsSafe (user_rejects id reason) y a =
      after-IsSafe (start_reject id reason y.receiver) y.tasks y.log
        (start_reject_safe setting id reason y.receiver) a.waiting a.written
  step-IsSafe (replied i reply) y a = reply-IsSafe i reply (get_elem? y.tasks i) y refl a

  run-IsSafe : (es : List Event) (y : System) → IsSafe y → IsSafe (run setting es y)
  unfolding run
  run-IsSafe [] y a = a
  run-IsSafe (e ∷ es) y a = run-IsSafe es (step setting e y) (step-IsSafe e y a)

  -- From a receiver in which nothing has been written and no handler waits, whatever events happen in
  -- whatever order: every piece that is written passes `verify_attachment_chunk`, so that its payload
  -- has the size and the SHA-256 hash that its frame announces.
  pub run_verified :
      (es : List Event) (r : Receiver) (i : ℕ) (id : Text) (f : Piece)
      → get_elem? (run setting es (record { receiver = r; tasks = []; log = [] })).log i
        ≡ some (write_chunk id f)
      → verify_attachment_chunk setting.sha256 setting.lower (to_frame f) ≡ true
  run_verified es r i id f h =
      let y : System = record { receiver = r; tasks = []; log = [] } in
      all_at (is_safe setting) i (run setting es y).log (write_chunk id f)
        (run-IsSafe es y (record { written = refl; waiting = refl })).written h
