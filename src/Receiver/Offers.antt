-- ===== src/Receiver/Offers.antt =====
-- packages/rtc/src/file-receiver.ts: `handleOffer`, `accept` and `reject`, cut at each `await`.
use risk_p2p.Prelude.{
  ℕ, ◌+◌, Bool, true, false, Option, none, some, [], ◌∷◌, ltb, leb, ◌==◌, length, take,
  if◌then◌else◌,
}
use risk_p2p.Prelude.Text.{Text}
use risk_p2p.Prelude.Map.{Map, lookup, insert}
use risk_p2p.Attachments.Checks.{Host}
use risk_p2p.Attachments.Manifest.{validate_attachment_manifest}
use risk_p2p.Receiver.{
  TransferState, offered, accepted, transferring, cancelled, Transfer, Receiver, Options, Offer,
  too_many_transfers, file_too_large, storage_unavailable, bad_manifest, given, send_accept,
  send_reject, send_need, prepare, discard, list_missing_chunks, on_offer, auto_accept, offer_event,
  progress_event, Reply, thrown, answered, indices, Caller, by_user, by_offer, deferring_reject,
  deferring_discard, noticing, deciding, abandoning, preparing, listing, sending_accept,
  rejecting_sent, rejecting_discard, Outcome, ends, waits, update, set_state, drop_transfer,
  max_missing_chunks_per_request,
}

is_offered : TransferState → Bool
is_offered offered = true
is_offered _ = false

-- `[...this.transfers.values()].find((transfer) => transfer.state === "offered")`
unfoldable pub first_offered : Receiver → Map ℕ → Option ℕ
unfolding is_offered
first_offered r [] = none
first_offered r ((id, ref) ∷ m) =
    if is_offered (r.cells ref).state then some ref else first_offered r m

-- `requireTransfer` in `accept`, and the first wait.
unfoldable pub start_accept : Caller → Text → Receiver → Outcome
start_accept by_user id r = elim (lookup id r.transfers) [
  | none ↦ ends r []
  | some ref ↦ waits r (prepare id (r.cells ref).manifest ∷ []) (preparing by_user ref)
]
start_accept (by_offer peer offer) id r = elim (lookup id r.transfers) [
  | none ↦ waits r (discard offer ∷ []) (abandoning peer offer true)
  | some ref ↦
      waits r (prepare id (r.cells ref).manifest ∷ []) (preparing (by_offer peer offer) ref)
]

-- `accept` throws: `handleOffer` catches it, for the user it is the end.
unfoldable pub accept_failed : Caller → Receiver → Outcome
accept_failed by_user r = ends r []
accept_failed (by_offer peer offer) r = waits r (discard offer ∷ []) (abandoning peer offer true)

unfoldable pub go_preparing : Caller → ℕ → Reply → Receiver → Outcome
unfolding accept_failed
go_preparing caller ref thrown r = accept_failed caller r
go_preparing caller ref _ r =
    let t = r.cells ref in
    waits (set_state ref accepted r) (list_missing_chunks t.transfer_id t.manifest.chunk_count ∷ [])
      (listing caller ref)

unfoldable pub go_listing : Caller → ℕ → Reply → Receiver → Outcome
unfolding accept_failed
go_listing caller ref (indices missing) r =
    let t = r.cells ref in
    waits (update ref (record t { missing_chunks = some missing }) r)
      ((if length missing == t.manifest.chunk_count
          then send_accept t.peer_id t.transfer_id
          else send_need t.peer_id t.transfer_id (take max_missing_chunks_per_request missing))
        ∷ [])
      (sending_accept caller ref)
go_listing caller ref _ r = accept_failed caller r

unfoldable pub go_sending_accept : Caller → ℕ → Reply → Receiver → Outcome
unfolding accept_failed
go_sending_accept caller ref thrown r = accept_failed caller r
go_sending_accept caller ref _ r =
    ends (set_state ref transferring r) (progress_event (r.cells ref).transfer_id transferring ∷ [])

module _ (host : Host) (options : Options) where
  -- `handleOffer` from the validation of the manifest on.
  unfoldable pub validate_offer : Text → Offer → Receiver → Outcome
  validate_offer peer offer r =
      let id = offer.offer_id in
      let t : Transfer = record {
        peer_id = peer;
        transfer_id = id;
        manifest = offer.offer_manifest;
        received_chunks = [];
        bytes_transferred = 0;
        state = offered;
        retry_count = 0;
        missing_chunks = none;
        processing_chunks = [];
      } in
      let created = record (update r.next_ref t r) {
        next_ref = r.next_ref + 1;
        transfers = insert id r.next_ref r.transfers;
      } in
      elim (validate_attachment_manifest host offer.value) [
        | e ∷ es ↦ ends r (send_reject peer id (bad_manifest (e ∷ es)) ∷ [])
        | [] ↦
            if ltb options.max_file_size_bytes offer.offer_manifest.size
            then ends r (send_reject peer id file_too_large ∷ [])
            else waits created (offer_event id ∷ progress_event id offered ∷ on_offer peer id ∷ [])
                (noticing peer id r.next_ref)
      ]

  unfoldable pub handle_offer : Text → Offer → Receiver → Outcome
  unfolding validate_offer
  handle_offer peer offer r =
      let id = offer.offer_id in
      elim (lookup id r.transfers) [
        | some ref ↦ ends r []
        | none ↦
            if leb options.max_incoming_transfers (length r.transfers)
            then elim (first_offered r r.transfers) [
              | none ↦ ends r (send_reject peer id too_many_transfers ∷ [])
              | some ref ↦
                  let deferred = r.cells ref in
                  waits r
                    (send_reject deferred.peer_id deferred.transfer_id too_many_transfers ∷ [])
                    (deferring_reject peer offer ref)
            ]
            else validate_offer peer offer r
      ]

  unfoldable pub go_deferring_reject : Text → Offer → ℕ → Reply → Receiver → Outcome
  go_deferring_reject peer offer ref thrown r = ends r []
  go_deferring_reject peer offer ref _ r =
      waits r (discard (r.cells ref).transfer_id ∷ []) (deferring_discard peer offer ref)

  unfoldable pub go_deferring_discard : Text → Offer → ℕ → Reply → Receiver → Outcome
  unfolding validate_offer
  go_deferring_discard peer offer ref thrown r = ends r []
  go_deferring_discard peer offer ref _ r =
      let id = (r.cells ref).transfer_id in
      let o = validate_offer peer offer (drop_transfer id (set_state ref cancelled r)) in
      record {
        receiver = o.receiver;
        effects = progress_event id cancelled ∷ o.effects;
        next = o.next;
      }

unfoldable pub go_noticing : Text → Text → ℕ → Reply → Receiver → Outcome
go_noticing peer id ref thrown r =
    ends (drop_transfer id r) (send_reject peer id storage_unavailable ∷ [])
go_noticing peer id ref _ r = waits r (auto_accept peer id ∷ []) (deciding peer id ref)

unfoldable pub go_deciding : Text → Text → ℕ → Reply → Receiver → Outcome
unfolding start_accept
go_deciding peer id ref thrown r =
    waits (drop_transfer id r) (discard id ∷ []) (abandoning peer id false)
go_deciding peer id ref (answered true) r = start_accept (by_offer peer id) id r
go_deciding peer id ref _ r = ends r []

-- Behind `discard(...).catch(() => undefined)`
unfoldable pub go_abandoning : Text → Text → Bool → Reply → Receiver → Outcome
go_abandoning peer id drops reply r =
    ends (if drops then drop_transfer id r else r) (send_reject peer id storage_unavailable ∷ [])

unfoldable pub start_reject : Text → Option Text → Receiver → Outcome
start_reject id reason r = elim (lookup id r.transfers) [
  | none ↦ ends r []
  | some ref ↦
      waits r (send_reject (r.cells ref).peer_id id (given reason) ∷ []) (rejecting_sent id ref)
]

unfoldable pub go_rejecting_sent : Text → ℕ → Reply → Receiver → Outcome
go_rejecting_sent id ref thrown r = ends r []
go_rejecting_sent id ref _ r = waits r (discard id ∷ []) (rejecting_discard id ref)

unfoldable pub go_rejecting_discard : Text → ℕ → Reply → Receiver → Outcome
go_rejecting_discard id ref thrown r = ends r []
go_rejecting_discard id ref _ r =
    ends (drop_transfer id (set_state ref cancelled r)) (progress_event id cancelled ∷ [])
