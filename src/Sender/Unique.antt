-- ===== src/Sender/Unique.antt =====
-- packages/rtc/src/file-transfer.ts: no transfer of the sender has two runs at a time, over all orders
-- of its events.
use risk_p2p.Prelude.{
  ℕ, ◌+◌, ◌≤◌, ◌≡◌, refl, ap, sym, subst, true, false, Option, none, some, List, [], ◌∷◌, ◌++◌,
  arith, ltb, ◌==◌, length, keep, keep-append, length-append, get_elem?, remove_at,
  length-keep-remove_at, keep_same, inl, inr, Bool-cases, Option-cases, all, all-append, all_at,
  all_imp, all-remove_at,
}
use risk_p2p.Prelude.Text.{Text}
use risk_p2p.Chunks.{AttachmentManifest}
use risk_p2p.Sender.{
  Queued, Sender, Limits, Task, Reply, Outcome, ends, update, remove_transfer, find_transfer,
  is_active, announce_and_pump, pump, accept_and_start, resume, offer, pause, cancel, confirm,
}
use risk_p2p.Sender.Runs.{
  Event, offers, accepts, resumes, pauses, cancels, confirms, replied, System, go_on, after,
  go_on_at, call, step, run,
}
use risk_p2p.Sender.Single.{
  ref_of, is_run, ids, runs, allowed, IsKept, go_on-IsKept, changed, pumped, update-ids,
  all-remove_ref,
}
use risk_p2p.Sender.Counts.{
  count, is_below, pump_rounds-count, go_on-count, pump_rounds-below, go_on-below,
}

module _ (limits : Limits) (id : Text) where
  -- At most one run of the transfers with this id, and none if the id is not active.
  pub record IsSingle (s : Sender) (tasks : List Task) : Type 0 where
    pub below : all (is_below limits id s.next_ref) tasks ≡ true
    pub known : all (λ i. ltb i s.next_ref) s.queue ≡ true
    pub single : count limits id (ids s) tasks ≤ allowed id s

  same_ids : (s : Sender) (o : Outcome) → IsKept limits s o → ids o.sender ≡ ids s
  same_ids s o kept j i = kept.named i j

  -- An operation that keeps the objects leaves as many runs as its new waits and the others have.
  kept-IsSingle :
      (s : Sender) (o : Outcome) (others : List Task)
      → IsKept limits s o
      → all (λ i. ltb i s.next_ref) s.queue ≡ true
      → all (is_below limits id s.next_ref) others ≡ true
      → all (is_below limits id s.next_ref) o.next ≡ true
      → count limits id (ids s) o.next + count limits id (ids s) others ≤ allowed id o.sender
      → IsSingle o.sender (o.next ++ others)
  kept-IsSingle s o others kept known below fresh single =
      let names = same_ids s o kept in
      let sum = ap length (keep-append (runs id (ids s)) o.next others) in
      let len = length-append (keep (runs id (ids s)) o.next) (keep (runs id (ids s)) others) in
      record {
        below =
            rw kept.counted
              (ground (arith, all-append (is_below limits id s.next_ref) o.next others));
        known = rw kept.counted (kept.known (λ i. ltb i s.next_ref) known);
        single = rw names (omega arith);
      }

  go_on-IsSingle :
      (t : Task) (i : ℕ) (reply : Reply) (amount : ℕ) (s : Sender) (tasks : List Task)
      → get_elem? tasks i ≡ some t
      → IsSingle s tasks
      → IsSingle
          (go_on limits t reply amount s).sender
          ((go_on limits t reply amount s).next ++ remove_at i tasks)
  go_on-IsSingle t i reply amount s tasks e a =
      let others = remove_at i tasks in
      let split = length-keep-remove_at (runs id (ids s)) i tasks t e in
      let single = a.single in
      kept-IsSingle s (go_on limits t reply amount s) others (go_on-IsKept limits t reply amount s)
        a.known (all-remove_at (is_below limits id s.next_ref) i tasks a.below)
        (go_on-below limits id t reply amount s.next_ref s
          (all_at (is_below limits id s.next_ref) i tasks t a.below e) a.known)
        (go_on-count limits id t reply amount s (count limits id (ids s) others) (omega arith))

  -- An operation that waits for nothing.
  plain-IsSingle :
      (s : Sender) (o : Outcome) (tasks : List Task)
      → IsKept limits s o
      → o.next ≡ []
      → o.sender.active ≡ s.active
      → IsSingle s tasks
      → IsSingle o.sender (o.next ++ tasks)
  unfolding is_active
  plain-IsSingle s o tasks kept quiet same a =
      let single = a.single in
      kept-IsSingle s o tasks kept a.known a.below (rw quiet refl) (rw (quiet, same) (omega arith))

  announce-IsSingle :
      (ref : ℕ) (t : Queued) (s : Sender) (tasks : List Task)
      → t.transfer_id ≡ ids s ref
      → IsSingle s tasks
      → IsSingle
          (announce_and_pump limits ref t s).sender
          ((announce_and_pump limits ref t s).next ++ tasks)
  unfolding announce_and_pump pump update
  announce-IsSingle ref t s tasks h a =
      let s1 = update ref t s in
      let max = limits.max_concurrent_transfers in
      let kept = pumped limits s s1 (λ i. update-ids limits ref t s i h) refl (λ p q. q) in
      let names : ids s1 ≡ ids s =
        same_ids s (ends s1 []) (changed limits s ref t (ends s1 []) h refl) in
      let n = pump_rounds-count limits id max s1 (count limits id (ids s) tasks) a.single in
      let moved =
        subst
          (λ f.
            count limits id f (pump limits s1).next + count limits id (ids s) tasks
            ≤ allowed id (pump limits s1).sender)
          names n in
      kept-IsSingle s (announce_and_pump limits ref t s) tasks
        (record { named = kept.named; counted = kept.counted; known = kept.known }) a.known a.below
        (pump_rounds-below limits id max s.next_ref s1 a.known) moved

  later_below :
      (n : ℕ) (tasks : List Task)
      → all (is_below limits id n) tasks ≡ true
      → all (is_below limits id (n + 1)) tasks ≡ true
  later_below n tasks h =
      all_imp (is_below limits id n) (is_below limits id (n + 1)) tasks (λ t e. ground arith) h

  later_known :
      (n : ℕ) (queue : List ℕ)
      → all (λ i. ltb i n) queue ≡ true
      → all (λ i. ltb i (n + 1)) (queue ++ n ∷ []) ≡ true
  later_known n queue h =
      let old = all_imp (λ i. ltb i n) (λ i. ltb i (n + 1)) queue (λ i e. ground arith) h in
      ground (arith, all-append (λ i. ltb i (n + 1)) queue (n ∷ []))

  -- A new object is no matter to the waits that are there.
  new-count :
      (t : Queued) (s : Sender) (tasks : List Task)
      → all (is_below limits id s.next_ref) tasks ≡ true
      → count limits id (ids (update s.next_ref t s)) tasks ≡ count limits id (ids s) tasks
  unfolding update runs
  new-count t s tasks h = ap length (
      keep_same (runs id (ids (update s.next_ref t s))) (runs id (ids s))
        (is_below limits id s.next_ref) tasks
        (λ u e. let old : (ref_of u == s.next_ref) ≡ false = ground arith in rw (old, ids) refl) h)

  offer-IsSingle :
      (name peer : Text) (source : List ℕ) (manifest : AttachmentManifest) (s : Sender)
      (tasks : List Task)
      → IsSingle s tasks
      → IsSingle
          (offer name peer source manifest s).sender
          ((offer name peer source manifest s).next ++ tasks)
  unfolding offer update ref_of runs is_run is_active
  offer-IsSingle name peer source manifest s tasks a =
      let later = later_below s.next_ref tasks a.below in
      record {
        below = ground arith;
        known = later_known s.next_ref s.queue a.known;
        single = subst (λ n. n ≤ allowed id s) (sym (new-count _ s tasks a.below)) a.single;
      }

  -- A call that changes one transfer, and one that drops it from the queue too.
  settled-IsSingle :
      (ref : ℕ) (t : Queued) (s : Sender) (tasks : List Task)
      → t.transfer_id ≡ ids s ref
      → IsSingle s tasks
      → IsSingle (update ref t s) tasks
  unfolding update
  settled-IsSingle ref t s tasks h a =
      let o = ends (update ref t s) [] in
      plain-IsSingle s o tasks (changed limits s ref t o h refl) refl refl a

  dropped-IsSingle :
      (ref : ℕ) (s : Sender) (tasks : List Task)
      → IsSingle s tasks
      → IsSingle (remove_transfer ref s) tasks
  unfolding remove_transfer is_active
  dropped-IsSingle ref s tasks a = record {
    below = a.below;
    known = all-remove_ref limits (λ i. ltb i s.next_ref) ref s.queue a.known;
    single = a.single;
  }

  cancel-IsSingle :
      (name : Text) (s : Sender) (tasks : List Task)
      → IsSingle s tasks
      → IsSingle (cancel name s).sender ((cancel name s).next ++ tasks)
  unfolding cancel
  cancel-IsSingle name s tasks a = elim (Option-cases (find_transfer name s)) [
    | inl e ↦ rw (e, cancel) a
    | inr (ref, e) ↦
        let t = record (s.cells ref) {
          cancelled = true;
          paused = false;
          awaiting_verification = false;
        } in
        let b = settled-IsSingle ref t s tasks refl a in
        elim (Bool-cases (is_active name (update ref t s))) [
          | inl there ↦ rw (e, cancel, there) b
          | inr gone ↦ rw (e, cancel, gone) (dropped-IsSingle ref (update ref t s) tasks b)
        ]
  ]

  call-IsSingle :
      (e : Event) (s : Sender) (tasks : List Task)
      → IsSingle s tasks
      → IsSingle (call limits e s).sender ((call limits e s).next ++ tasks)
  unfolding call accept_and_start resume pause cancel confirm
  call-IsSingle (offers name peer source manifest) s tasks a =
      offer-IsSingle name peer source manifest s tasks a
  call-IsSingle (accepts name missing) s tasks a = elim (Option-cases (find_transfer name s)) [
    | inl e ↦ rw (e, accept_and_start) a
    | inr (ref, e) ↦ rw (e, accept_and_start) (announce-IsSingle ref _ s tasks refl a)
  ]
  call-IsSingle (resumes name missing) s tasks a = elim (Option-cases (find_transfer name s)) [
    | inl e ↦ rw (e, resume) a
    | inr (ref, e) ↦ rw (e, resume) (announce-IsSingle ref _ s tasks refl a)
  ]
  call-IsSingle (pauses name) s tasks a = elim (Option-cases (find_transfer name s)) [
    | inl e ↦ rw (e, pause) a
    | inr (ref, e) ↦ rw (e, pause) (settled-IsSingle ref _ s tasks refl a)
  ]
  call-IsSingle (cancels name) s tasks a = cancel-IsSingle name s tasks a
  call-IsSingle (confirms name) s tasks a = elim (Option-cases (find_transfer name s)) [
    | inl e ↦ rw (e, confirm) a
    | inr (ref, e) ↦
        let t = record (s.cells ref) {
          awaiting_verification = false;
          bytes_transferred = (s.cells ref).manifest.size;
        } in
        rw (e, confirm)
          (dropped-IsSingle ref (update ref t s) tasks (settled-IsSingle ref t s tasks refl a))
  ]
  call-IsSingle (replied i reply amount) s tasks a = a

  reply-IsSingle :
      (i : ℕ) (reply : Reply) (amount : ℕ) (o : Option Task) (y : System)
      → get_elem? y.tasks i ≡ o
      → IsSingle y.sender y.tasks
      → IsSingle
          (go_on_at limits i reply amount o y).sender
          (go_on_at limits i reply amount o y).tasks
  unfolding go_on_at after
  reply-IsSingle i reply amount none y e a = a
  reply-IsSingle i reply amount (some t) y e a =
      go_on-IsSingle t i reply amount y.sender y.tasks e a

  pub step-IsSingle :
      (e : Event) (y : System)
      → IsSingle y.sender y.tasks
      → IsSingle (step limits e y).sender (step limits e y).tasks
  unfolding step after
  step-IsSingle (replied i reply amount) y a =
      reply-IsSingle i reply amount (get_elem? y.tasks i) y refl a
  step-IsSingle (offers name peer source manifest) y a =
      call-IsSingle (offers name peer source manifest) y.sender y.tasks a
  step-IsSingle (accepts name missing) y a = call-IsSingle (accepts name missing) y.sender y.tasks a
  step-IsSingle (resumes name missing) y a = call-IsSingle (resumes name missing) y.sender y.tasks a
  step-IsSingle (pauses name) y a = call-IsSingle (pauses name) y.sender y.tasks a
  step-IsSingle (cancels name) y a = call-IsSingle (cancels name) y.sender y.tasks a
  step-IsSingle (confirms name) y a = call-IsSingle (confirms name) y.sender y.tasks a

  -- Whatever events come in whatever order, two runs never send a transfer with the same id at once,
  -- and only a transfer in the map of active ones has a run: a sender for which this holds, like a new
  -- one, keeps it.
  pub run-IsSingle :
      (es : List Event) (y : System)
      → IsSingle y.sender y.tasks
      → IsSingle (run limits es y).sender (run limits es y).tasks
  unfolding run
  run-IsSingle [] y a = a
  run-IsSingle (e ∷ es) y a = run-IsSingle es (step limits e y) (step-IsSingle e y a)
