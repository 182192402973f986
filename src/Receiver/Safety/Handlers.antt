-- ===== src/Receiver/Safety/Handlers.antt =====
-- What the handlers of packages/rtc/src/file-receiver.ts write, up to their next waits.
use risk_p2p.Prelude.{ℕ, ◌≡◌, Bool, true, ◌&&◌, Option, none, some, arith, all}
use risk_p2p.Prelude.Text.{Text}
use risk_p2p.Chunks.{verify_attachment_chunk}
use risk_p2p.Receiver.{
  TransferState, Receiver, Offer, Piece, to_frame, Effect, write_chunk, Reply, Caller, Task, asking,
  writing, Outcome,
}
use risk_p2p.Receiver.Offers.{
  handle_offer, validate_offer, start_accept, accept_failed, go_preparing, go_listing,
  go_sending_accept, go_deferring_reject, go_deferring_discard, go_noticing, go_deciding,
  start_reject,
}
use risk_p2p.Receiver.Pieces.{handle_chunk, go_granted, go_hashing, refuse_piece}
use risk_p2p.Receiver.Endings.{
  update_state, cancel, complete, finish, complete_failed, go_completing_wait, go_completing_list,
  go_finalizing, go_completing_sent,
}
use risk_p2p.Receiver.Runs.{Setting}

module _ (setting : Setting) where
  abbrev pub is_verified : Piece → Bool
  is_verified f = verify_attachment_chunk setting.sha256 setting.lower (to_frame f)

  -- Only a verified piece is written.
  abbrev pub is_safe : Effect → Bool
  is_safe (write_chunk id f) = is_verified f
  is_safe _ = true

  -- A wait in whose course a piece may still be written is one for a verified piece.
  abbrev pub is_safe_task : Task → Bool
  is_safe_task (asking peer f ref at) = is_verified f
  is_safe_task (writing peer f ref at) = is_verified f
  is_safe_task _ = true

  abbrev pub is_safe_next : Option Task → Bool
  is_safe_next none = true
  is_safe_next (some t) = is_safe_task t

  abbrev pub IsSafeOutcome : Outcome → Type 0
  IsSafeOutcome o = (all is_safe o.effects && is_safe_next o.next) ≡ true

  pub handle_offer_safe :
      (peer : Text) (offer : Offer) (r : Receiver)
      → IsSafeOutcome (handle_offer setting.host setting.options peer offer r)
  unfolding handle_offer validate_offer
  handle_offer_safe peer offer r = ground arith

  pub deferring_reject_safe :
      (peer : Text) (offer : Offer) (ref : ℕ) (reply : Reply) (r : Receiver)
      → IsSafeOutcome (go_deferring_reject setting.host setting.options peer offer ref reply r)
  unfolding go_deferring_reject
  deferring_reject_safe peer offer ref reply r = ground arith

  pub deferring_discard_safe :
      (peer : Text) (offer : Offer) (ref : ℕ) (reply : Reply) (r : Receiver)
      → IsSafeOutcome (go_deferring_discard setting.host setting.options peer offer ref reply r)
  unfolding go_deferring_discard validate_offer
  deferring_discard_safe peer offer ref reply r = ground arith

  pub start_accept_safe :
      (caller : Caller) (id : Text) (r : Receiver) → IsSafeOutcome (start_accept caller id r)
  unfolding start_accept
  start_accept_safe caller id r = ground arith

  pub preparing_safe :
      (caller : Caller) (ref : ℕ) (reply : Reply) (r : Receiver)
      → IsSafeOutcome (go_preparing caller ref reply r)
  unfolding go_preparing accept_failed
  preparing_safe caller ref reply r = ground arith

  pub listing_safe :
      (caller : Caller) (ref : ℕ) (reply : Reply) (r : Receiver)
      → IsSafeOutcome (go_listing caller ref reply r)
  unfolding go_listing accept_failed
  listing_safe caller ref reply r = ground arith

  pub sending_accept_safe :
      (caller : Caller) (ref : ℕ) (reply : Reply) (r : Receiver)
      → IsSafeOutcome (go_sending_accept caller ref reply r)
  unfolding go_sending_accept accept_failed
  sending_accept_safe caller ref reply r = ground arith

  pub noticing_safe :
      (peer id : Text) (ref : ℕ) (reply : Reply) (r : Receiver)
      → IsSafeOutcome (go_noticing peer id ref reply r)
  unfolding go_noticing
  noticing_safe peer id ref reply r = ground arith

  pub deciding_safe :
      (peer id : Text) (ref : ℕ) (reply : Reply) (r : Receiver)
      → IsSafeOutcome (go_deciding peer id ref reply r)
  unfolding go_deciding start_accept
  deciding_safe peer id ref reply r = ground arith

  pub handle_chunk_safe :
      (peer : Text) (f : Piece) (r : Receiver) → IsSafeOutcome (handle_chunk peer f r)
  unfolding handle_chunk
  handle_chunk_safe peer f r = ground arith

  pub granted_safe :
      (peer : Text) (f : Piece) (ref : ℕ) (reply : Reply) (r : Receiver)
      → IsSafeOutcome (go_granted setting.sha256 setting.lower peer f ref reply r)
  unfolding go_granted refuse_piece
  granted_safe peer f ref reply r = ground arith

  pub hashing_safe :
      (peer : Text) (f : Piece) (ref at : ℕ) (reply : Reply) (r : Receiver)
      → IsSafeOutcome (go_hashing setting.sha256 setting.lower peer f ref at reply r)
  unfolding go_hashing refuse_piece
  hashing_safe peer f ref at reply r = ground arith

  pub complete_safe : (peer id hash : Text) (r : Receiver) → IsSafeOutcome (complete peer id hash r)
  unfolding complete
  complete_safe peer id hash r = ground arith

  pub cancel_safe : (id : Text) (r : Receiver) → IsSafeOutcome (cancel id r)
  unfolding cancel
  cancel_safe id r = ground arith

  pub update_state_safe :
      (id : Text) (s : TransferState) (r : Receiver) → IsSafeOutcome (update_state id s r)
  unfolding update_state
  update_state_safe id s r = ground arith

  pub start_reject_safe :
      (id : Text) (reason : Option Text) (r : Receiver) → IsSafeOutcome (start_reject id reason r)
  unfolding start_reject
  start_reject_safe id reason r = ground arith

  pub completing_wait_safe :
      (peer : Text) (ref : ℕ) (hash : Text) (reply : Reply) (r : Receiver)
      → IsSafeOutcome (go_completing_wait peer ref hash reply r)
  unfolding go_completing_wait finish
  completing_wait_safe peer ref hash reply r = ground arith

  pub completing_list_safe :
      (peer : Text) (ref : ℕ) (hash : Text) (reply : Reply) (r : Receiver)
      → IsSafeOutcome (go_completing_list peer ref hash reply r)
  unfolding go_completing_list finish
  completing_list_safe peer ref hash reply r = ground arith

  pub finalizing_safe :
      (peer : Text) (ref : ℕ) (hash : Text) (reply : Reply) (r : Receiver)
      → IsSafeOutcome (go_finalizing setting.lower peer ref hash reply r)
  unfolding go_finalizing complete_failed
  finalizing_safe peer ref hash reply r = ground arith

  pub completing_sent_safe :
      (peer : Text) (ref : ℕ) (hash : Text) (reply : Reply) (r : Receiver)
      → IsSafeOutcome (go_completing_sent peer ref hash reply r)
  unfolding go_completing_sent complete_failed
  completing_sent_safe peer ref hash reply r = ground arith
