-- ===== src/Sender/Counts.antt =====
-- packages/rtc/src/file-transfer.ts: how many runs of a transfer an operation of the sender leaves.
use risk_p2p.Prelude.{
  ℕ, zero, suc, ◌+◌, ◌≤◌, ◌≡◌, refl, subst, Bool, true, false, none, List, [], ◌∷◌, arith, ltb,
  ◌==◌, ==_iff, &&_iff, length, keep, if◌then◌else◌, ◌⊎◌, inl, inr, Bool-cases, Option-cases, all,
  find, find_passes, find-all,
}
use risk_p2p.Prelude.Text.{Text, text_eq}
use risk_p2p.Prelude.Map.{delete, lookup, lookup-insert, lookup-delete}
use risk_p2p.Sender.{
  Sender, Limits, Task, offering, opening, flushing, completing, failing, reporting, settling,
  reading, holding, easing, passing, resting, sending, retrying, returned, Reply, done, thrown,
  remove_transfer, is_active, start, startable, pump_rounds, pump,
}
use risk_p2p.Sender.Transfer.{go_settling}
use risk_p2p.Sender.Runs.{go_offering, go_on}
use risk_p2p.Prelude.Text.{text_eq_iff}
use risk_p2p.Sender.Bounds.{go_on-active, is_settling}
use risk_p2p.Sender.Single.{
  ref_of, is_run, ids, runs, continues, allowed, ends_or_settles, go_on-continues, all-remove_ref,
}

module _ (limits : Limits) (id : Text) where
  abbrev pub count : (ℕ → Text) → List Task → ℕ
  count names tasks = length (keep (runs id names) tasks)

  start-allowed :
      (i : ℕ) (s : Sender) (c : ℕ)
      → startable s i ≡ true
      → c ≤ allowed id s
      → (if text_eq (ids s i) id then 1 else 0) + c ≤ allowed id (start i s).sender
  unfolding startable start is_active
  start-allowed i s c h room =
      let new = lookup-insert (ids s i) id i s.active in
      elim (Bool-cases (text_eq (ids s i) id)) [
        | inl same ↦
            let none_yet : lookup id s.active ≡ none =
              subst (λ k. lookup k s.active ≡ none) ((text_eq_iff (ids s i) id).0 same)
                (ground arith) in
            ground arith
        | inr differs ↦ ground arith
      ]

  pub pump_rounds-count :
      (n : ℕ) (s : Sender) (c : ℕ)
      → c ≤ allowed id s
      → count (ids s) (pump_rounds limits n s).next + c ≤ allowed id (pump_rounds limits n s).sender
  unfolding pump_rounds start runs is_run ref_of
  pump_rounds-count zero s c h = omega arith
  pump_rounds-count (suc n) s c h =
      elim (Bool-cases (ltb (length s.active) limits.max_concurrent_transfers)) [
        | inr full ↦ rw full (ground arith)
        | inl free ↦ rw free (elim (Option-cases (find (startable s) s.queue)) [
          | inl nothing ↦ rw nothing (ground arith)
          | inr (i, e) ↦
              let more = start-allowed i s c (find_passes (startable s) s.queue i e) h in
              let later =
                pump_rounds-count n (start i s).sender ((if text_eq (ids s i) id then 1 else 0) + c)
                  more in
              rw e (ground (arith, later))
        ])
      ]

  -- The share of one wait.
  abbrev pub one : (ℕ → Text) → Task → ℕ
  one names t = if runs id names t then 1 else 0

  settling-count :
      (ref : ℕ) (s : Sender) (c : ℕ)
      → one (ids s) (settling ref) + c ≤ allowed id s
      → count (ids s) (go_settling limits ref s).next + c
        ≤ allowed id (go_settling limits ref s).sender
  unfolding go_settling remove_transfer pump runs is_run ref_of is_active
  settling-count ref s c h =
      let less = lookup-delete (ids s ref) id s.active in
      let s1 : Sender = record s { active = delete (ids s ref) s.active } in
      let s2 = if (s.cells ref).cancelled then remove_transfer ref s1 else s1 in
      let room : c ≤ allowed id s1 = ground arith in
      elim (Bool-cases (s.cells ref).cancelled) [
        | inl e ↦
            rw e (pump_rounds-count limits.max_concurrent_transfers (remove_transfer ref s1) c room)
        | inr e ↦ rw e (pump_rounds-count limits.max_concurrent_transfers s1 c room)
      ]

  continues-count :
      (names : ℕ → Text) (t : Task) (next : List Task)
      → is_run t ≡ true
      → continues (ref_of t) next ≡ true
      → count names next ≡ one names t
  unfolding continues runs
  continues-count names t [] h e = cc
  continues-count names t (u ∷ []) h e =
      let both = (&&_iff (is_run u) (ref_of u == ref_of t)).0 e in
      let same = (==_iff (ref_of u) (ref_of t)).0 both.1 in rw (both.0, h, same) (ground arith)
  continues-count names t (u ∷ v ∷ ts) h e = cc

  pub task_kinds :
      (t : Task)
      → ((ref : ℕ) × (t ≡ settling ref))
        ⊎ (((ref : ℕ) × (t ≡ offering ref))
            ⊎ ((ends_or_settles t ≡ false) × (is_settling limits t ≡ false) × (is_run t ≡ true)))
  unfolding ends_or_settles is_settling is_run
  task_kinds (settling ref) = inl (ref, refl)
  task_kinds (offering ref) = inr (inl (ref, refl))
  task_kinds (opening ref) = inr (inr (refl, refl, refl))
  task_kinds (reading ref frames) = inr (inr (refl, refl, refl))
  task_kinds (holding ref f rest) = inr (inr (refl, refl, refl))
  task_kinds (easing ref f rest) = inr (inr (refl, refl, refl))
  task_kinds (passing ref f rest) = inr (inr (refl, refl, refl))
  task_kinds (resting ref f rest) = inr (inr (refl, refl, refl))
  task_kinds (sending ref f rest) = inr (inr (refl, refl, refl))
  task_kinds (retrying ref f rest) = inr (inr (refl, refl, refl))
  task_kinds (returned ref f rest verdict) = inr (inr (refl, refl, refl))
  task_kinds (flushing ref) = inr (inr (refl, refl, refl))
  task_kinds (completing ref) = inr (inr (refl, refl, refl))
  task_kinds (failing ref) = inr (inr (refl, refl, refl))
  task_kinds (reporting ref) = inr (inr (refl, refl, refl))

  same-allowed : (s r : Sender) → r.active ≡ s.active → allowed id r ≡ allowed id s
  unfolding is_active
  same-allowed s r e = rw e refl

  offering-count :
      (ref : ℕ) (reply : Reply) (s : Sender) (c : ℕ)
      → c ≤ allowed id s
      → count (ids s) (go_offering ref reply s).next + c
        ≤ allowed id (go_offering ref reply s).sender
  unfolding go_offering
  offering-count ref done s c h = omega arith
  offering-count ref thrown s c h = omega arith

  pub go_on-count :
      (t : Task) (reply : Reply) (amount : ℕ) (s : Sender) (c : ℕ)
      → one (ids s) t + c ≤ allowed id s
      → count (ids s) (go_on limits t reply amount s).next + c
        ≤ allowed id (go_on limits t reply amount s).sender
  unfolding go_on
  go_on-count t reply amount s c h = elim (task_kinds t) [
    | inl (ref, e) ↦
        rw e (settling-count ref s c (subst (λ u. one (ids s) u + c ≤ allowed id s) e h))
    | inr (inl (ref, e)) ↦ rw e (offering-count ref reply s c (omega arith))
    | inr (inr (goes, runs_on, mine)) ↦
        let o = go_on limits t reply amount s in
        let n =
          continues-count (ids s) t o.next mine (go_on-continues limits t reply amount s goes) in
        let m = same-allowed s o.sender (go_on-active limits t reply amount s runs_on) in
        omega arith
  ]

  abbrev pub is_below : ℕ → Task → Bool
  is_below n t = ltb (ref_of t) n

  pub pump_rounds-below :
      (k n : ℕ) (s : Sender)
      → all (λ i. ltb i n) s.queue ≡ true
      → all (is_below n) (pump_rounds limits k s).next ≡ true
  unfolding pump_rounds start ref_of
  pump_rounds-below zero n s h = refl
  pump_rounds-below (suc k) n s h =
      elim (Bool-cases (ltb (length s.active) limits.max_concurrent_transfers)) [
        | inr full ↦ rw full refl
        | inl free ↦ rw free (elim (Option-cases (find (startable s) s.queue)) [
          | inl nothing ↦ rw nothing refl
          | inr (i, e) ↦
              let mine = find-all (startable s) (λ j. ltb j n) s.queue i e h in
              let later = pump_rounds-below k n (start i s).sender h in rw e (ground (arith, later))
        ])
      ]

  settling-below :
      (ref n : ℕ) (s : Sender)
      → all (λ i. ltb i n) s.queue ≡ true
      → all (is_below n) (go_settling limits ref s).next ≡ true
  unfolding go_settling remove_transfer pump
  settling-below ref n s h =
      let s1 : Sender = record s { active = delete (ids s ref) s.active } in
      let fewer = all-remove_ref limits (λ i. ltb i n) ref s.queue h in
      elim (Bool-cases (s.cells ref).cancelled) [
        | inl e ↦
            rw e
              (pump_rounds-below limits.max_concurrent_transfers n (remove_transfer ref s1) fewer)
        | inr e ↦ rw e (pump_rounds-below limits.max_concurrent_transfers n s1 h)
      ]

  continues-below :
      (ref n : ℕ) (next : List Task)
      → ltb ref n ≡ true
      → continues ref next ≡ true
      → all (is_below n) next ≡ true
  unfolding continues
  continues-below ref n [] h e = refl
  continues-below ref n (u ∷ []) h e =
      let both = (&&_iff (is_run u) (ref_of u == ref)).0 e in
      rw ((==_iff (ref_of u) ref).0 both.1) (ground arith)
  continues-below ref n (u ∷ v ∷ ts) h e = cc

  pub go_on-below :
      (t : Task) (reply : Reply) (amount n : ℕ) (s : Sender)
      → is_below n t ≡ true
      → all (λ i. ltb i n) s.queue ≡ true
      → all (is_below n) (go_on limits t reply amount s).next ≡ true
  unfolding go_on go_offering
  go_on-below t reply amount n s h known = elim (task_kinds t) [
    | inl (ref, e) ↦ rw e (settling-below ref n s known)
    | inr (inl (ref, e)) ↦ rw e (ground arith)
    | inr (inr (goes, runs_on, mine)) ↦
        continues-below (ref_of t) n (go_on limits t reply amount s).next h
          (go_on-continues limits t reply amount s goes)
  ]
