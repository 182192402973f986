-- ===== src/Rtc/Ice.antt =====
-- packages/rtc/src/transport/ice.ts: candidates that arrive before the remote description wait in a
-- bounded queue.
use mathlib.Core.List.{append_assoc, append-nil}
use risk_p2p.Prelude.{
  ℕ, ◌≤◌, ◌≡◌, refl, ap, sym, ◌∙◌, Bool, false, List, [], ◌∷◌, ◌++◌, arith, if◌then◌else◌, ltb,
  length, length-append, take, take_all, take-append, all, true, Bool-cases, inl, inr,
}

abbrev pub max_pending_ice_candidates : ℕ
max_pending_ice_candidates = 256

-- The fields of `MeshPeerEntry` that the two functions use; `added` are the candidates that the
-- connection has taken: those for which the promise of `RTCPeerConnection.addIceCandidate` was
-- fulfilled, in order.
pub record PeerEntry {ℓ} (C : Type ℓ) : Type ℓ where
  pub ignore_offer : Bool
  pub has_remote_description : Bool
  pub pending : List C
  pub added : List C

-- What a call returns, or that it throws what `addIceCandidate` has rejected with.
pub data Outcome : Type 0 where
  was_added queued ignored rejected : Outcome

-- `accepts` tells whether the promise of `addIceCandidate` is fulfilled for a candidate.
module _ {ℓ} {C : Type ℓ} (accepts : C → Bool) where
  pub add_or_queue_ice_candidate : PeerEntry C → C → PeerEntry C × Outcome
  add_or_queue_ice_candidate entry candidate =
      if entry.ignore_offer
      then (entry, ignored)
      else if entry.has_remote_description
      then if accepts candidate
        then (record entry { added = entry.added ++ candidate ∷ [] }, was_added)
        else (entry, rejected)
      else (
        (if ltb (length entry.pending) max_pending_ice_candidates
            then record entry { pending = entry.pending ++ candidate ∷ [] }
            else entry),
        queued,
      )

  -- The loop of the flush, and whether it ends without a throw: the first rejection ends it.
  unfoldable pub add_in_turn : List C → List C → List C × Bool
  add_in_turn added [] = (added, true)
  add_in_turn added (candidate ∷ candidates) =
      let rest = add_in_turn (added ++ candidate ∷ []) candidates in
      if accepts candidate then rest else (added, false)

  -- `splice(0)` empties the queue before the first call.
  pub flush_pending_ice_candidates : PeerEntry C → PeerEntry C × Bool
  unfolding add_in_turn
  flush_pending_ice_candidates entry =
      let loop = add_in_turn entry.added entry.pending in
      (record entry { pending = []; added = loop.0 }, loop.1)

  -- A run of candidates.
  pub add_all : PeerEntry C → List C → PeerEntry C
  add_all entry [] = entry
  add_all entry (c ∷ cs) = add_all (add_or_queue_ice_candidate entry c).0 cs

  -- `if (queue.length < limit) queue.push(candidate)`
  bounded_push : ℕ → List C → C → List C
  bounded_push limit queue c = if ltb (length queue) limit then queue ++ c ∷ [] else queue

  full_lem :
      (limit : ℕ) (queue xs ys : List C)
      → length queue ≡ limit
      → take limit (queue ++ xs) ≡ take limit (queue ++ ys)
  full_lem limit queue xs ys e =
      ap (λ k. take k (queue ++ xs)) (sym e)
      ∙ take-append queue xs
      ∙ sym (take-append queue ys)
      ∙ ap (λ k. take k (queue ++ ys)) e

  take-bounded_push :
      (limit : ℕ) (queue : List C) (c : C) (cs : List C)
      → length queue ≤ limit
      → take limit (bounded_push limit queue c ++ cs) ≡ take limit (queue ++ c ∷ cs)
  unfolding bounded_push
  take-bounded_push limit queue c cs h = elim (Bool-cases (ltb (length queue) limit)) [
    | inl room ↦ rw room (ap (take limit) (append_assoc queue (c ∷ []) cs))
    | inr full ↦ rw full (full_lem limit queue cs (c ∷ cs) (ground arith))
  ]

  add_one :
      (entry : PeerEntry C) (c : C)
      → entry.ignore_offer ≡ false
      → entry.has_remote_description ≡ false
      → (add_or_queue_ice_candidate entry c).0
        ≡ record entry { pending = bounded_push max_pending_ice_candidates entry.pending c }
  unfolding add_or_queue_ice_candidate bounded_push
  add_one entry c h r = ground arith

  length-bounded_push :
      (limit : ℕ) (queue : List C) (c : C)
      → length queue ≤ limit
      → length (bounded_push limit queue c) ≤ limit
  unfolding bounded_push
  length-bounded_push limit queue c h = ground (arith, length-append queue (c ∷ []))

  add_all_lem :
      (entry : PeerEntry C) (cs : List C)
      → entry.ignore_offer ≡ false
      → entry.has_remote_description ≡ false
      → length entry.pending ≤ max_pending_ice_candidates
      → add_all entry cs
        ≡ record entry { pending = take max_pending_ice_candidates (entry.pending ++ cs) }
  unfolding add_all
  add_all_lem entry [] h r fits =
      ap (λ q. record entry { pending = q })
        (sym (
          ap (take max_pending_ice_candidates) (append-nil entry.pending)
          ∙ take_all max_pending_ice_candidates entry.pending fits))
  add_all_lem entry (c ∷ cs) h r fits =
      let queue = bounded_push max_pending_ice_candidates entry.pending c in
      ap (λ e. add_all e cs) (add_one entry c h r)
      ∙ add_all_lem (record entry { pending = queue }) cs h r
          (length-bounded_push max_pending_ice_candidates entry.pending c fits)
      ∙ ap (λ q. record entry { pending = q })
          (take-bounded_push max_pending_ice_candidates entry.pending c cs fits)

  -- A loop ends without a throw if nothing is lost, and else throws at the first one that is.
  abbrev pub EndsAt : List C → Bool → Type 0
  EndsAt [] ends = ends ≡ true
  EndsAt (c ∷ cs) ends = (accepts c ≡ false) × (ends ≡ false)

  -- What is taken of a queue: all candidates before the first one that is rejected.
  pub record Flushed (added candidates : List C) (loop : List C × Bool) : Type ℓ where
    pub taken : List C
    pub lost : List C
    pub parts : candidates ≡ taken ++ lost
    pub added_taken : loop.0 ≡ added ++ taken
    pub all_accepted : all accepts taken ≡ true
    pub first_lost : EndsAt lost loop.1

  add_in_turn-Flushed :
      (added candidates : List C) → Flushed added candidates (add_in_turn added candidates)
  unfolding add_in_turn
  add_in_turn-Flushed added [] = record {
    taken = [];
    lost = [];
    parts = refl;
    added_taken = sym (append-nil added);
    all_accepted = refl;
    first_lost = refl;
  }
  add_in_turn-Flushed added (c ∷ cs) = elim (Bool-cases (accepts c)) [
    | inl e ↦
        let rest = add_in_turn-Flushed (added ++ c ∷ []) cs in
        rw e (record {
          taken = c ∷ rest.taken;
          lost = rest.lost;
          parts = ap (◌∷◌ c) rest.parts;
          added_taken = rest.added_taken ∙ append_assoc added (c ∷ []) rest.taken;
          all_accepted = rw e rest.all_accepted;
          first_lost = rest.first_lost;
        })
    | inr e ↦ rw e (record {
      taken = [];
      lost = c ∷ cs;
      parts = refl;
      added_taken = sym (append-nil added);
      all_accepted = refl;
      first_lost = (e, refl);
    })
  ]

  -- Of the candidates that arrive before the remote description, the flush takes the first 256 in the
  -- order of their arrival up to the first one that the connection rejects, if one is; that one and
  -- those behind it are lost, since the queue is empty in any case, and the flush throws just then.
  pub flush-add_all :
      (entry : PeerEntry C) (cs : List C)
      → entry.ignore_offer ≡ false
      → entry.has_remote_description ≡ false
      → entry.pending ≡ []
      → let (flushed, done) = flush_pending_ice_candidates (add_all entry cs) in
        Flushed entry.added (take max_pending_ice_candidates cs) (flushed.added, done)
        × (flushed.pending ≡ [])
  unfolding flush_pending_ice_candidates
  flush-add_all entry cs h r e =
      let run = add_all_lem entry cs h r (rw e (omega arith)) in
      let queue = take max_pending_ice_candidates cs in
      let same : add_all entry cs ≡ record entry { pending = queue } =
        run ∙ ap (λ q. record entry { pending = take max_pending_ice_candidates (q ++ cs) }) e in
      (rw same (add_in_turn-Flushed entry.added queue), refl)
