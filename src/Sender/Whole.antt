-- ===== src/Sender/Whole.antt =====
-- packages/rtc/src/file-transfer.ts: what the sender has sent of a transfer when it says that it is
-- complete, over all orders of its events.
use risk_p2p.Prelude.{
  ℕ, ◌≡◌, refl, sym, ◌∙◌, subst, true, false, Option, none, some, List, [], ◌∷◌, ◌++◌, arith, ltb,
  ◌==◌, ==_iff, get_elem?, remove_at, length-keep-remove_at, inl, inr, Bool-cases, all,
}
use risk_p2p.Prelude.Text.{Text, text_eq}
use risk_p2p.Sender.{
  Sender, Limits, Action, Task, offering, opening, flushing, completing, failing, reporting,
  settling, reading, holding, easing, passing, resting, sending, retrying, returned, delivered,
  gave_up, Reply, done, thrown, Outcome,
}
use risk_p2p.Sender.Transfer.{go_completing, go_failing, go_settling}
use risk_p2p.Sender.Runs.{
  Event, replied, System, go_offering, go_on, after, go_on_at, call, step, run,
}
use risk_p2p.Prelude.Text.{text_eq_self}
use risk_p2p.Sender.Single.{ref_of, is_run, ids, runs, ends_or_settles}
use risk_p2p.Prelude.{Every, Every-append, Every-at, Every-remove_at, Every-imp, Every-failing}
use risk_p2p.Sender.{
  send_offer, send_manifest, send_complete, send_error, send_chunk, taken, iterate, delay_ms,
  progress,
}
use risk_p2p.Sender.Unique.{IsSingle, step-IsSingle}
use risk_p2p.Sender.Counts.{task_kinds}
use risk_p2p.Sender.Complete.{
  Trace, no_trace, note, gather, IsComplete, Honest, Fits, IsFaithful, opening-IsFaithful,
  send_with_retry-IsFaithful, resting-IsFaithful, holding-IsFaithful, reading-IsFaithful,
  easing-IsFaithful, passing-IsFaithful, sending-IsFaithful, returned-IsFaithful,
  flushing-IsFaithful,
}
use risk_p2p.Sender.Aside.{
  gather-aside, Knows, IsAside, settling-IsAside, offering-IsAside, call-IsAside, other-IsAside,
}

module _ (limits : Limits) (ref : ℕ) where
  go_on-IsFaithful :
      (t : Task) (reply : Reply) (amount : ℕ) (tr : Trace) (s : Sender)
      → ref_of t ≡ ref
      → ends_or_settles t ≡ false
      → Fits limits ref tr t
      → IsFaithful limits ref tr (go_on limits t reply amount s)
  unfolding go_on ref_of ends_or_settles Fits Honest gather note go_completing go_failing
  go_on-IsFaithful (offering i) reply amount tr s e h a = absurd cc
  go_on-IsFaithful (settling i) reply amount tr s e h a = absurd cc
  go_on-IsFaithful (opening i) reply amount tr s e h a =
      rw e (opening-IsFaithful limits ref reply tr s)
  go_on-IsFaithful (reading i frames) reply amount tr s e h a =
      rw e (reading-IsFaithful limits ref frames reply amount tr s a)
  go_on-IsFaithful (holding i f rest) reply amount tr s e h a =
      rw e (holding-IsFaithful limits ref f rest amount tr s a)
  go_on-IsFaithful (easing i f rest) reply amount tr s e h a =
      rw e (easing-IsFaithful limits ref f rest reply amount tr s a)
  go_on-IsFaithful (passing i f rest) reply amount tr s e h a =
      rw e (passing-IsFaithful limits ref f rest tr s a)
  go_on-IsFaithful (resting i f rest) reply amount tr s e h a =
      rw e (resting-IsFaithful limits ref f rest tr s a)
  go_on-IsFaithful (sending i f rest) reply amount tr s e h a =
      rw e (sending-IsFaithful limits ref f rest reply tr s a)
  go_on-IsFaithful (retrying i f rest) reply amount tr s e h a =
      rw e (send_with_retry-IsFaithful limits ref f rest tr s a)
  go_on-IsFaithful (returned i f rest delivered) reply amount tr s e h a =
      rw e (returned-IsFaithful limits ref f rest delivered tr s a)
  go_on-IsFaithful (returned i f rest gave_up) reply amount tr s e h a =
      rw e (returned-IsFaithful limits ref f rest gave_up tr s _)
  go_on-IsFaithful (flushing i) reply amount tr s e h a =
      rw e (flushing-IsFaithful limits ref reply tr s a)
  go_on-IsFaithful (completing i) done amount tr s e h a = _
  go_on-IsFaithful (completing i) thrown amount tr s e h a = _
  go_on-IsFaithful (failing i) reply amount tr s e h a = _
  go_on-IsFaithful (reporting i) reply amount tr s e h a = _

  gather-append :
      (tr : Trace) (xs ys : List Action)
      → gather limits ref tr (xs ++ ys) ≡ gather limits ref (gather limits ref tr xs) ys
  unfolding gather
  gather-append tr [] ys = refl
  gather-append tr (a ∷ xs) ys = gather-append (note limits ref a tr) xs ys

  Honest-append :
      (tr : Trace) (xs ys : List Action)
      → Honest limits ref tr xs
      → Honest limits ref (gather limits ref tr xs) ys
      → Honest limits ref tr (xs ++ ys)
  unfolding Honest gather note
  Honest-append tr [] ys a b = b
  Honest-append tr (send_offer i ∷ xs) ys a b = Honest-append tr xs ys a b
  Honest-append tr (send_manifest i ∷ xs) ys a b = Honest-append tr xs ys a b
  Honest-append tr (send_error i e ∷ xs) ys a b = Honest-append tr xs ys a b
  Honest-append tr (send_chunk i f ∷ xs) ys a b = Honest-append tr xs ys a b
  Honest-append tr (delay_ms i n ∷ xs) ys a b = Honest-append tr xs ys a b
  Honest-append tr (progress i t p ∷ xs) ys a b = Honest-append tr xs ys a b
  Honest-append tr (taken i f ∷ xs) ys a b =
      Honest-append (note limits ref (taken i f) tr) xs ys a b
  Honest-append tr (iterate i source manifest only ∷ xs) ys a b =
      Honest-append (note limits ref (iterate i source manifest only) tr) xs ys a b
  Honest-append tr (send_complete i ∷ xs) ys a b = (a.0, Honest-append tr xs ys a.1 b)

  -- What the log and the waits tell of the transfer is true.
  pub record IsTold (tr : Trace) (tasks : List Task) (log : List Action) : Type 0 where
    pub honest : Honest limits ref tr log
    pub known : Every (Knows limits ref (gather limits ref tr log)) tasks

  aside-IsTold :
      (tr : Trace) (o : Outcome) (others : List Task) (log : List Action)
      → Honest limits ref tr log
      → Every (Knows limits ref (gather limits ref tr log)) others
      → IsAside limits ref (gather limits ref tr log) o
      → IsTold tr (o.next ++ others) (log ++ o.actions)
  aside-IsTold tr o others log honest known aside =
      let now = gather limits ref tr log in
      let kept = gather-aside limits ref o.actions now aside.0 in
      let same = gather-append tr log o.actions ∙ kept.0 in
      record {
        honest = Honest-append tr log o.actions honest kept.1;
        known =
            subst (λ t. Every (Knows limits ref t) (o.next ++ others)) (sym same)
              (Every-append (Knows limits ref now) o.next others aside.1 known);
      }

  idle-Fits : (u : Task) (tr : Trace) → is_run u ≡ false → Fits limits ref tr u
  unfolding Fits is_run
  idle-Fits u tr h = elim (task_kinds limits [] u) [
    | inl (i, e) ↦ rw e _
    | inr (inl (i, e)) ↦ rw e _
    | inr (inr (goes, runs_on, mine)) ↦ absurd cc
  ]

  -- The other waits are of other runs.
  others-know :
      (t : Task) (k : ℕ) (tr : Trace) (s : Sender) (tasks : List Task)
      → get_elem? tasks k ≡ some t
      → ref_of t ≡ ref
      → is_run t ≡ true
      → IsSingle limits (ids s ref) s tasks
      → Every (Knows limits ref tr) (remove_at k tasks)
  unfolding runs
  others-know t k tr s tasks e mine running a =
      let id = ids s ref in
      let self : text_eq (ids s (ref_of t)) id ≡ true = rw mine (text_eq_self id) in
      let split = length-keep-remove_at (runs id (ids s)) k tasks t e in
      let single = a.single in
      let counted : runs id (ids s) t ≡ true = ground arith in
      Every-failing (runs id (ids s)) (Knows limits ref tr) (remove_at k tasks)
        (λ u fails same.
          let named : text_eq (ids s (ref_of u)) id ≡ true = rw same (text_eq_self id) in
          idle-Fits u tr (ground arith))
        (ground arith)

  mine-IsTold :
      (t : Task) (k : ℕ) (reply : Reply) (amount : ℕ) (tr : Trace) (y : System)
      → get_elem? y.tasks k ≡ some t
      → ref_of t ≡ ref
      → ends_or_settles t ≡ false
      → is_run t ≡ true
      → IsSingle limits (ids y.sender ref) y.sender y.tasks
      → IsTold tr y.tasks y.log
      → IsTold tr
          ((go_on limits t reply amount y.sender).next ++ remove_at k y.tasks)
          (y.log ++ (go_on limits t reply amount y.sender).actions)
  mine-IsTold t k reply amount tr y e mine goes running single a =
      let now = gather limits ref tr y.log in
      let o = go_on limits t reply amount y.sender in
      let later = gather limits ref now o.actions in
      let fits = Every-at (Knows limits ref now) k y.tasks t a.known e mine in
      let faithful = go_on-IsFaithful t reply amount now y.sender mine goes fits in
      record {
        honest = Honest-append tr y.log o.actions a.honest faithful.0;
        known =
            subst (λ u. Every (Knows limits ref u) (o.next ++ remove_at k y.tasks))
              (sym (gather-append tr y.log o.actions))
              (Every-append (Knows limits ref later) o.next (remove_at k y.tasks)
                (Every-imp (Fits limits ref later) (Knows limits ref later) o.next (λ u f h. f)
                  faithful.1)
                (others-know t k later y.sender y.tasks e mine running single));
      }

  go_on-IsTold :
      (t : Task) (k : ℕ) (reply : Reply) (amount : ℕ) (tr : Trace) (y : System)
      → get_elem? y.tasks k ≡ some t
      → IsSingle limits (ids y.sender ref) y.sender y.tasks
      → IsTold tr y.tasks y.log
      → IsTold tr
          ((go_on limits t reply amount y.sender).next ++ remove_at k y.tasks)
          (y.log ++ (go_on limits t reply amount y.sender).actions)
  unfolding go_on
  go_on-IsTold t k reply amount tr y e single a =
      let now = gather limits ref tr y.log in
      let others = Every-remove_at (Knows limits ref now) k y.tasks a.known in
      elim (task_kinds limits [] t) [
        | inl (i, same) ↦ rw same (
            aside-IsTold tr (go_settling limits i y.sender) (remove_at k y.tasks) y.log a.honest
              others (settling-IsAside limits ref i now y.sender))
        | inr (inl (i, same)) ↦ rw same (
            aside-IsTold tr (go_offering i reply y.sender) (remove_at k y.tasks) y.log a.honest
              others (offering-IsAside limits ref i reply now y.sender))
        | inr (inr (goes, runs_on, running)) ↦ elim (Bool-cases (ref_of t == ref)) [
          | inl mine ↦
              mine-IsTold t k reply amount tr y e ((==_iff (ref_of t) ref).0 mine) goes running
                single a
          | inr differs ↦
              aside-IsTold tr (go_on limits t reply amount y.sender) (remove_at k y.tasks) y.log
                a.honest others (other-IsAside limits ref t reply amount now y.sender differs)
        ]
      ]

  call-IsTold :
      (e : Event) (tr : Trace) (y : System)
      → IsTold tr y.tasks y.log
      → IsTold tr
          (after limits (call limits e y.sender) y.tasks y.log).tasks
          (after limits (call limits e y.sender) y.tasks y.log).log
  unfolding after
  call-IsTold e tr y a =
      aside-IsTold tr (call limits e y.sender) y.tasks y.log a.honest a.known
        (call-IsAside limits ref e (gather limits ref tr y.log) y.sender)

  reply-IsTold :
      (k : ℕ) (reply : Reply) (amount : ℕ) (o : Option Task) (tr : Trace) (y : System)
      → get_elem? y.tasks k ≡ o
      → IsSingle limits (ids y.sender ref) y.sender y.tasks
      → IsTold tr y.tasks y.log
      → IsTold tr
          (go_on_at limits k reply amount o y).tasks
          (go_on_at limits k reply amount o y).log
  unfolding go_on_at after
  reply-IsTold k reply amount none tr y e single a = a
  reply-IsTold k reply amount (some t) tr y e single a =
      go_on-IsTold t k reply amount tr y e single a

  step-IsTold :
      (e : Event) (tr : Trace) (y : System)
      → IsSingle limits (ids y.sender ref) y.sender y.tasks
      → IsTold tr y.tasks y.log
      → IsTold tr (step limits e y).tasks (step limits e y).log
  unfolding step
  step-IsTold (replied k reply amount) tr y single a =
      reply-IsTold k reply amount (get_elem? y.tasks k) tr y refl single a
  step-IsTold e tr y single a = call-IsTold e tr y a

  -- Every id has at most one run.
  abbrev pub AllSingle : System → Type 0
  AllSingle y = (id : Text) → IsSingle limits id y.sender y.tasks

  run-IsTold :
      (es : List Event) (tr : Trace) (y : System)
      → AllSingle y
      → IsTold tr y.tasks y.log
      → IsTold tr (run limits es y).tasks (run limits es y).log
  unfolding run
  run-IsTold [] tr y single a = a
  run-IsTold (e ∷ es) tr y single a =
      run-IsTold es tr (step limits e y) (λ id. step-IsSingle limits id e y (single id))
        (step-IsTold e tr y (single (ids y.sender ref)) a)

  Honest-at :
      (tr : Trace) (before later : List Action)
      → Honest limits ref tr (before ++ send_complete ref ∷ later)
      → IsComplete limits ref (gather limits ref tr before)
  unfolding Honest gather note
  Honest-at tr [] later a = a.0 (ground arith)
  Honest-at tr (send_offer i ∷ xs) ys a = Honest-at tr xs ys a
  Honest-at tr (send_manifest i ∷ xs) ys a = Honest-at tr xs ys a
  Honest-at tr (send_error i e ∷ xs) ys a = Honest-at tr xs ys a
  Honest-at tr (send_chunk i f ∷ xs) ys a = Honest-at tr xs ys a
  Honest-at tr (delay_ms i n ∷ xs) ys a = Honest-at tr xs ys a
  Honest-at tr (progress i t p ∷ xs) ys a = Honest-at tr xs ys a
  Honest-at tr (taken i f ∷ xs) ys a = Honest-at (note limits ref (taken i f) tr) xs ys a
  Honest-at tr (iterate i source manifest only ∷ xs) ys a =
      Honest-at (note limits ref (iterate i source manifest only) tr) xs ys a
  Honest-at tr (send_complete i ∷ xs) ys a = Honest-at tr xs ys a.1

  -- From a sender without waits, whatever events come in whatever order: when `file.complete` is sent
  -- for a transfer, the channel has taken, since the chunks were last asked for, all the chunks that
  -- were asked for, once each and in their order.
  pub run-IsComplete :
      (es : List Event) (s : Sender) (before later : List Action)
      → all (λ i. ltb i s.next_ref) s.queue ≡ true
      → (run limits es (record { sender = s; tasks = []; log = [] })).log
        ≡ before ++ send_complete ref ∷ later
      → IsComplete limits ref (gather limits ref no_trace before)
  unfolding Honest
  run-IsComplete es s before later known e =
      let y : System = record { sender = s; tasks = []; log = [] } in
      let single : AllSingle y =
        λ id. record { below = refl; known = known; single = omega arith } in
      let told = run-IsTold es no_trace y single (record { honest = _; known = _ }) in
      Honest-at no_trace before later (subst (Honest limits ref no_trace) e told.honest)
