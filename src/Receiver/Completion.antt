-- ===== src/Receiver/Completion.antt =====
-- When packages/rtc/src/file-receiver.ts reports a file as complete.
use risk_p2p.Prelude.{ℕ, ◌≡◌, refl, sym, ◌∙◌, Bool, true, false, ◌&&◌, arith, any}
use risk_p2p.Prelude.Text.{Text, text_eq}
use risk_p2p.Receiver.{
  TransferState, verifying, completed, Receiver, Offer, Piece, Effect, send_complete,
  progress_event, Reply, done, thrown, answered, indices, digest, Caller, Task, deferring_reject,
  deferring_discard, noticing, deciding, abandoning, preparing, listing, sending_accept, granted,
  hashing, asking, writing, ending_piece, rejecting_sent, rejecting_discard, cancelling_wait,
  cancelling_discard, completing_wait, completing_list, finalizing, completing_sent, Outcome, is_at,
}
use risk_p2p.Receiver.Offers.{
  validate_offer, start_accept, accept_failed, go_preparing, go_listing, go_sending_accept,
  go_deferring_reject, go_deferring_discard, go_noticing, go_deciding, go_abandoning,
  go_rejecting_sent, go_rejecting_discard,
}
use risk_p2p.Receiver.Pieces.{
  go_granted, go_hashing, go_asking, go_writing, go_ending_piece, refuse_piece,
}
use risk_p2p.Receiver.Endings.{
  go_cancelling_wait, go_cancelling_discard, finish, complete_failed, go_completing_wait,
  go_completing_list, go_finalizing, go_completing_sent, is_verifying,
}
use risk_p2p.Receiver.Runs.{Setting, go_on}

module _ (setting : Setting) where
  -- A message or a progress event that says that a file is complete.
  abbrev pub is_completion : Effect → Bool
  is_completion (send_complete peer id h) = true
  is_completion (progress_event id completed) = true
  is_completion _ = false

  abbrev Silent : Outcome → Type 0
  Silent o = any is_completion o.effects ≡ false

  deferring_discard-Silent :
      (peer : Text) (offer : Offer) (ref : ℕ) (reply : Reply) (r : Receiver)
      → Silent (go_deferring_discard setting.host setting.options peer offer ref reply r)
  unfolding go_deferring_discard validate_offer
  deferring_discard-Silent peer offer ref reply r = ground arith

  granted-Silent :
      (peer : Text) (f : Piece) (ref : ℕ) (reply : Reply) (r : Receiver)
      → Silent (go_granted setting.sha256 setting.lower peer f ref reply r)
  unfolding go_granted refuse_piece
  granted-Silent peer f ref reply r = ground arith

  hashing-Silent :
      (peer : Text) (f : Piece) (ref at : ℕ) (reply : Reply) (r : Receiver)
      → Silent (go_hashing setting.sha256 setting.lower peer f ref at reply r)
  unfolding go_hashing refuse_piece
  hashing-Silent peer f ref at reply r = ground arith

  completing_wait-Silent :
      (peer : Text) (ref : ℕ) (hash : Text) (reply : Reply) (r : Receiver)
      → Silent (go_completing_wait peer ref hash reply r)
  unfolding go_completing_wait finish
  completing_wait-Silent peer ref hash reply r = ground arith

  completing_list-Silent :
      (peer : Text) (ref : ℕ) (hash : Text) (reply : Reply) (r : Receiver)
      → Silent (go_completing_list peer ref hash reply r)
  unfolding go_completing_list finish
  completing_list-Silent peer ref hash reply r = ground arith

  completing_sent-Silent :
      (peer : Text) (ref : ℕ) (hash : Text) (reply : Reply) (r : Receiver)
      → Silent (go_completing_sent peer ref hash reply r)
  unfolding go_completing_sent complete_failed
  completing_sent-Silent peer ref hash reply r = ground arith

  deferring_reject-Silent :
      (peer : Text) (offer : Offer) (ref : ℕ) (reply : Reply) (r : Receiver)
      → Silent (go_deferring_reject setting.host setting.options peer offer ref reply r)
  unfolding go_deferring_reject
  deferring_reject-Silent peer offer ref reply r = ground arith

  noticing-Silent :
      (peer : Text) (id : Text) (ref : ℕ) (reply : Reply) (r : Receiver)
      → Silent (go_noticing peer id ref reply r)
  unfolding go_noticing
  noticing-Silent peer id ref reply r = ground arith

  deciding-Silent :
      (peer : Text) (id : Text) (ref : ℕ) (reply : Reply) (r : Receiver)
      → Silent (go_deciding peer id ref reply r)
  unfolding go_deciding start_accept
  deciding-Silent peer id ref reply r = ground arith

  abandoning-Silent :
      (peer : Text) (id : Text) (drops : Bool) (reply : Reply) (r : Receiver)
      → Silent (go_abandoning peer id drops reply r)
  unfolding go_abandoning
  abandoning-Silent peer id drops reply r = ground arith

  preparing-Silent :
      (caller : Caller) (ref : ℕ) (reply : Reply) (r : Receiver)
      → Silent (go_preparing caller ref reply r)
  unfolding go_preparing accept_failed
  preparing-Silent caller ref reply r = ground arith

  listing-Silent :
      (caller : Caller) (ref : ℕ) (reply : Reply) (r : Receiver)
      → Silent (go_listing caller ref reply r)
  unfolding go_listing accept_failed
  listing-Silent caller ref reply r = ground arith

  sending_accept-Silent :
      (caller : Caller) (ref : ℕ) (reply : Reply) (r : Receiver)
      → Silent (go_sending_accept caller ref reply r)
  unfolding go_sending_accept accept_failed
  sending_accept-Silent caller ref reply r = ground arith

  asking-Silent :
      (peer : Text) (f : Piece) (ref : ℕ) (at : ℕ) (reply : Reply) (r : Receiver)
      → Silent (go_asking peer f ref at reply r)
  unfolding go_asking
  asking-Silent peer f ref at reply r = ground arith

  writing-Silent :
      (peer : Text) (f : Piece) (ref : ℕ) (at : ℕ) (reply : Reply) (r : Receiver)
      → Silent (go_writing peer f ref at reply r)
  unfolding go_writing
  writing-Silent peer f ref at reply r = ground arith

  ending_piece-Silent :
      (f : Piece) (ref : ℕ) (reply : Reply) (r : Receiver) → Silent (go_ending_piece f ref reply r)
  unfolding go_ending_piece
  ending_piece-Silent f ref reply r = ground arith

  rejecting_sent-Silent :
      (id : Text) (ref : ℕ) (reply : Reply) (r : Receiver)
      → Silent (go_rejecting_sent id ref reply r)
  unfolding go_rejecting_sent
  rejecting_sent-Silent id ref reply r = ground arith

  rejecting_discard-Silent :
      (id : Text) (ref : ℕ) (reply : Reply) (r : Receiver)
      → Silent (go_rejecting_discard id ref reply r)
  unfolding go_rejecting_discard
  rejecting_discard-Silent id ref reply r = ground arith

  cancelling_wait-Silent :
      (id : Text) (reply : Reply) (r : Receiver) → Silent (go_cancelling_wait id reply r)
  unfolding go_cancelling_wait
  cancelling_wait-Silent id reply r = ground arith

  cancelling_discard-Silent :
      (id : Text) (reply : Reply) (r : Receiver) → Silent (go_cancelling_discard id reply r)
  unfolding go_cancelling_discard
  cancelling_discard-Silent id reply r = ground arith

  -- The wait that has ended is the one for the sink, which gives the hash `hash` of the whole file; the
  -- transfer is still known and being checked, and the hash is the one of the manifest and the one
  -- that the peer announced.
  pub record Completed (t : Task) (reply : Reply) (r : Receiver) : Type 0 where
    pub peer : Text
    pub ref : ℕ
    pub announced : Text
    pub hash : Text
    pub task : t ≡ finalizing peer ref announced
    pub stored : reply ≡ digest hash
    pub known : is_at (r.cells ref).transfer_id ref r ≡ true
    pub checking : (r.cells ref).state ≡ verifying
    pub of_manifest :
        text_eq (setting.lower hash) (setting.lower (r.cells ref).manifest.content_hash) ≡ true
    pub of_peer : text_eq (setting.lower hash) (setting.lower announced) ≡ true

  verifying_lem : (s : TransferState) → is_verifying s ≡ true → s ≡ verifying
  verifying_lem s h = ground arith

  absurd_bool {ℓ} : {A : Type ℓ} → false ≡ true → A
  absurd_bool e = cc

  finalizing_failed : (peer : Text) (ref : ℕ) (r : Receiver) → Silent (complete_failed peer ref r)
  unfolding complete_failed
  finalizing_failed peer ref r = ground arith

  finalized :
      (peer : Text) (ref : ℕ) (announced h : Text) (r : Receiver)
      → any is_completion (go_finalizing setting.lower peer ref announced (digest h) r).effects
        ≡ true
      → (is_at (r.cells ref).transfer_id ref r
          && is_verifying (r.cells ref).state
          && text_eq (setting.lower h) (setting.lower (r.cells ref).manifest.content_hash)
          && text_eq (setting.lower h) (setting.lower announced))
        ≡ true
  unfolding go_finalizing complete_failed
  finalized peer ref announced h r e = ground arith

  -- Where a handler reports a file as complete at the end of a wait, that wait was the one for the sink
  -- to put the file together, the transfer is still known and being checked, and the hash that the sink
  -- gives is, up to letter case, the one of the manifest and the one that the peer announced.
  pub go_on-Completed :
      (t : Task) (reply : Reply) (r : Receiver)
      → any is_completion (go_on setting t reply r).effects ≡ true
      → Completed t reply r
  unfolding go_on go_finalizing
  go_on-Completed (deferring_reject peer offer ref) reply r h =
      absurd_bool (sym (deferring_reject-Silent peer offer ref reply r) ∙ h)
  go_on-Completed (deferring_discard peer offer ref) reply r h =
      absurd_bool (sym (deferring_discard-Silent peer offer ref reply r) ∙ h)
  go_on-Completed (noticing peer id ref) reply r h =
      absurd_bool (sym (noticing-Silent peer id ref reply r) ∙ h)
  go_on-Completed (deciding peer id ref) reply r h =
      absurd_bool (sym (deciding-Silent peer id ref reply r) ∙ h)
  go_on-Completed (abandoning peer id drops) reply r h =
      absurd_bool (sym (abandoning-Silent peer id drops reply r) ∙ h)
  go_on-Completed (preparing caller ref) reply r h =
      absurd_bool (sym (preparing-Silent caller ref reply r) ∙ h)
  go_on-Completed (listing caller ref) reply r h =
      absurd_bool (sym (listing-Silent caller ref reply r) ∙ h)
  go_on-Completed (sending_accept caller ref) reply r h =
      absurd_bool (sym (sending_accept-Silent caller ref reply r) ∙ h)
  go_on-Completed (granted peer f ref) reply r h =
      absurd_bool (sym (granted-Silent peer f ref reply r) ∙ h)
  go_on-Completed (hashing peer f ref at) reply r h =
      absurd_bool (sym (hashing-Silent peer f ref at reply r) ∙ h)
  go_on-Completed (asking peer f ref at) reply r h =
      absurd_bool (sym (asking-Silent peer f ref at reply r) ∙ h)
  go_on-Completed (writing peer f ref at) reply r h =
      absurd_bool (sym (writing-Silent peer f ref at reply r) ∙ h)
  go_on-Completed (ending_piece f ref) reply r h =
      absurd_bool (sym (ending_piece-Silent f ref reply r) ∙ h)
  go_on-Completed (rejecting_sent id ref) reply r h =
      absurd_bool (sym (rejecting_sent-Silent id ref reply r) ∙ h)
  go_on-Completed (rejecting_discard id ref) reply r h =
      absurd_bool (sym (rejecting_discard-Silent id ref reply r) ∙ h)
  go_on-Completed (cancelling_wait id) reply r h =
      absurd_bool (sym (cancelling_wait-Silent id reply r) ∙ h)
  go_on-Completed (cancelling_discard id) reply r h =
      absurd_bool (sym (cancelling_discard-Silent id reply r) ∙ h)
  go_on-Completed (completing_wait peer ref hash) reply r h =
      absurd_bool (sym (completing_wait-Silent peer ref hash reply r) ∙ h)
  go_on-Completed (completing_list peer ref hash) reply r h =
      absurd_bool (sym (completing_list-Silent peer ref hash reply r) ∙ h)
  go_on-Completed (completing_sent peer ref hash) reply r h =
      absurd_bool (sym (completing_sent-Silent peer ref hash reply r) ∙ h)
  go_on-Completed (finalizing peer ref announced) (digest hash) r h =
      let checks = finalized peer ref announced hash r h in
      record {
        peer = peer;
        ref = ref;
        announced = announced;
        hash = hash;
        task = refl;
        stored = refl;
        known = ground arith;
        checking = verifying_lem (r.cells ref).state (ground arith);
        of_manifest = ground arith;
        of_peer = ground arith;
      }
  go_on-Completed (finalizing peer ref announced) done r h =
      absurd_bool (sym (finalizing_failed peer ref r) ∙ h)
  go_on-Completed (finalizing peer ref announced) thrown r h =
      absurd_bool (sym (finalizing_failed peer ref r) ∙ h)
  go_on-Completed (finalizing peer ref announced) (answered b) r h =
      absurd_bool (sym (finalizing_failed peer ref r) ∙ h)
  go_on-Completed (finalizing peer ref announced) (indices js) r h =
      absurd_bool (sym (finalizing_failed peer ref r) ∙ h)
