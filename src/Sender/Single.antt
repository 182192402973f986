-- ===== src/Sender/Single.antt =====
-- packages/rtc/src/file-transfer.ts: what an operation of the sender keeps of its objects, and which
-- waits it leaves.
use risk_p2p.Prelude.{
  ℕ, zero, suc, ◌+◌, ◌≡◌, refl, ap, sym, ◌∙◌, subst, Bool, true, false, ◌&&◌, List, [], ◌∷◌, arith,
  ltb, ◌==◌, ==_iff, length, min, if◌then◌else◌, inl, inr, Bool-cases, Option-cases, all, find,
}
use risk_p2p.Prelude.Text.{Text, text_eq}
use risk_p2p.Prelude.Map.{delete}
use risk_p2p.Sender.{
  Queued, Sender, Limits, Task, offering, opening, flushing, completing, failing, reporting,
  settling, reading, holding, easing, passing, resting, sending, retrying, returned, delivered,
  gave_up, Reply, done, thrown, Outcome, update, remove_ref, remove_transfer, is_active, start,
  startable, pump_rounds, pump,
}
use risk_p2p.Sender.Transfer.{
  go_opening, go_reading, go_holding, go_easing, press, go_passing, send_with_retry, go_resting,
  go_sending, go_returned, go_flushing, go_completing, go_failing, go_settling,
}
use risk_p2p.Sender.Runs.{go_offering, go_on}

-- The transfer of a wait, and whether the wait is one of `run`.
unfoldable pub ref_of : Task → ℕ
ref_of (offering ref) = ref
ref_of (opening ref) = ref
ref_of (reading ref frames) = ref
ref_of (holding ref f rest) = ref
ref_of (easing ref f rest) = ref
ref_of (passing ref f rest) = ref
ref_of (resting ref f rest) = ref
ref_of (sending ref f rest) = ref
ref_of (retrying ref f rest) = ref
ref_of (returned ref f rest verdict) = ref
ref_of (flushing ref) = ref
ref_of (completing ref) = ref
ref_of (failing ref) = ref
ref_of (reporting ref) = ref
ref_of (settling ref) = ref

unfoldable pub is_run : Task → Bool
is_run (offering ref) = false
is_run _ = true

abbrev pub ids : Sender → ℕ → Text
ids s i = (s.cells i).transfer_id

-- A run of a transfer with this id
unfoldable pub runs : Text → (ℕ → Text) → Task → Bool
unfolding is_run
runs id names t = is_run t && text_eq (names (ref_of t)) id

-- One more wait, of the run that goes on.
unfoldable pub continues : ℕ → List Task → Bool
unfolding is_run
continues ref [] = false
continues ref (t ∷ []) = is_run t && ref_of t == ref
continues ref (t ∷ u ∷ ts) = false

-- The runs that may be active for an id.
abbrev pub allowed : Text → Sender → ℕ
allowed id s = if is_active id s then 1 else 0

unfoldable pub ends_or_settles : Task → Bool
ends_or_settles (offering ref) = true
ends_or_settles (settling ref) = true
ends_or_settles _ = false

module _ (limits : Limits) where
  pub go_on-continues :
      (t : Task) (reply : Reply) (amount : ℕ) (s : Sender)
      → ends_or_settles t ≡ false
      → continues (ref_of t) (go_on limits t reply amount s).next ≡ true
  unfolding ends_or_settles ref_of continues go_on go_opening go_holding go_easing press go_passing
      send_with_retry go_resting go_sending go_returned go_flushing go_completing go_failing
      go_reading
  go_on-continues (offering ref) reply amount s h = cc
  go_on-continues (settling ref) reply amount s h = cc
  go_on-continues (opening ref) done amount s h = ground arith
  go_on-continues (opening ref) thrown amount s h = ground arith
  go_on-continues (reading ref []) done amount s h = ground arith
  go_on-continues (reading ref (f ∷ rest)) done amount s h = ground arith
  go_on-continues (reading ref frames) thrown amount s h = ground arith
  go_on-continues (holding ref f rest) reply amount s h = ground arith
  go_on-continues (easing ref f rest) done amount s h = ground arith
  go_on-continues (easing ref f rest) thrown amount s h = ground arith
  go_on-continues (passing ref f rest) reply amount s h = ground arith
  go_on-continues (resting ref f rest) reply amount s h = ground arith
  go_on-continues (sending ref f rest) done amount s h = ground arith
  go_on-continues (sending ref f rest) thrown amount s h = ground arith
  go_on-continues (retrying ref f rest) reply amount s h = ground arith
  go_on-continues (returned ref f rest delivered) reply amount s h = ground arith
  go_on-continues (returned ref f rest gave_up) reply amount s h = ground arith
  go_on-continues (flushing ref) done amount s h = ground arith
  go_on-continues (flushing ref) thrown amount s h = ground arith
  go_on-continues (completing ref) done amount s h = ground arith
  go_on-continues (completing ref) thrown amount s h = ground arith
  go_on-continues (failing ref) reply amount s h = ground arith
  go_on-continues (reporting ref) reply amount s h = ground arith

  pub update-ids :
      (ref : ℕ) (t : Queued) (s : Sender) (i : ℕ)
      → t.transfer_id ≡ ids s ref
      → ids (update ref t s) i ≡ ids s i
  unfolding update
  update-ids ref t s i h = elim (Bool-cases (i == ref)) [
    | inl e ↦ rw (e, ids) (h ∙ ap (ids s) (sym ((==_iff i ref).0 e)))
    | inr e ↦ rw (e, ids) refl
  ]

  -- `pump` changes which transfers are active, and nothing else.
  pub pump_rounds-sender :
      (n : ℕ) (s : Sender)
      → (pump_rounds limits n s).sender
        ≡ record s { active = (pump_rounds limits n s).sender.active }
  unfolding pump_rounds start
  pump_rounds-sender zero s = refl
  pump_rounds-sender (suc n) s =
      elim (Bool-cases (ltb (length s.active) limits.max_concurrent_transfers)) [
        | inr full ↦ rw full refl
        | inl free ↦ rw free (elim (Option-cases (find (startable s) s.queue)) [
          | inl nothing ↦ rw nothing refl
          | inr (i, e) ↦ rw e (pump_rounds-sender n (start i s).sender)
        ])
      ]

  pub all-remove_ref :
      (p : ℕ → Bool) (ref : ℕ) (is : List ℕ) → all p is ≡ true → all p (remove_ref ref is) ≡ true
  unfolding remove_ref
  all-remove_ref p ref [] h = refl
  all-remove_ref p ref (i ∷ js) h = ground (arith, all-remove_ref p ref js)

  -- What an operation keeps of the objects.
  pub record IsKept (s : Sender) (o : Outcome) : Type 0 where
    pub named : (i : ℕ) → ids o.sender i ≡ ids s i
    pub counted : o.sender.next_ref ≡ s.next_ref
    pub known : (p : ℕ → Bool) → all p s.queue ≡ true → all p o.sender.queue ≡ true

  pub still : (s : Sender) (o : Outcome) → o.sender ≡ s → IsKept s o
  still s o e = record {
    named = λ i. ap (λ r. ids r i) e;
    counted = ap (λ r. r.next_ref) e;
    known = λ p h. subst (λ r. all p r.queue ≡ true) (sym e) h;
  }

  pub changed :
      (s : Sender) (ref : ℕ) (t : Queued) (o : Outcome)
      → t.transfer_id ≡ ids s ref
      → o.sender ≡ update ref t s
      → IsKept s o
  unfolding update
  changed s ref t o h e = record {
    named = λ i. ap (λ r. ids r i) e ∙ update-ids ref t s i h;
    counted = ap (λ r. r.next_ref) e;
    known = λ p q. subst (λ r. all p r.queue ≡ true) (sym e) q;
  }

  pub pumped :
      (s : Sender) (r : Sender)
      → ((i : ℕ) → ids r i ≡ ids s i)
      → r.next_ref ≡ s.next_ref
      → ((p : ℕ → Bool) → all p s.queue ≡ true → all p r.queue ≡ true)
      → IsKept s (pump limits r)
  unfolding pump
  pumped s r named counted known =
      let same = pump_rounds-sender limits.max_concurrent_transfers r in
      record {
        named = λ i. ap (λ u. ids u i) same ∙ named i;
        counted = ap (λ u. u.next_ref) same ∙ counted;
        known = λ p h. subst (λ u. all p u.queue ≡ true) (sym same) (known p h);
      }

  pub go_on-IsKept :
      (t : Task) (reply : Reply) (amount : ℕ) (s : Sender)
      → IsKept s (go_on limits t reply amount s)
  unfolding go_on go_offering go_opening go_holding go_easing press go_passing send_with_retry
      go_resting go_sending go_returned go_flushing go_completing go_failing go_reading go_settling
      remove_transfer
  go_on-IsKept (offering ref) done amount s = still s _ refl
  go_on-IsKept (offering ref) thrown amount s = still s _ refl
  go_on-IsKept (settling ref) reply amount s =
      pumped s
        (if (s.cells ref).cancelled
          then remove_transfer ref (record s { active = delete (s.cells ref).transfer_id s.active })
          else record s { active = delete (s.cells ref).transfer_id s.active })
        (λ i. ground arith) (ground arith) (λ p h. ground (arith, all-remove_ref p ref s.queue h))
  go_on-IsKept (opening ref) done amount s = still s _ (ground arith)
  go_on-IsKept (opening ref) thrown amount s = still s _ refl
  go_on-IsKept (reading ref []) done amount s = still s _ refl
  go_on-IsKept (reading ref (f ∷ rest)) done amount s = still s _ (ground arith)
  go_on-IsKept (reading ref frames) thrown amount s = still s _ refl
  go_on-IsKept (holding ref f rest) reply amount s = still s _ (ground arith)
  go_on-IsKept (easing ref f rest) done amount s = still s _ refl
  go_on-IsKept (easing ref f rest) thrown amount s = still s _ refl
  go_on-IsKept (passing ref f rest) reply amount s = still s _ (ground arith)
  go_on-IsKept (resting ref f rest) reply amount s = still s _ (ground arith)
  go_on-IsKept (sending ref f rest) done amount s = still s _ refl
  go_on-IsKept (sending ref f rest) thrown amount s =
      changed s ref (record (s.cells ref) { retry_count = (s.cells ref).retry_count + 1 }) _ refl
        (ground arith)
  go_on-IsKept (retrying ref f rest) reply amount s = still s _ (ground arith)
  go_on-IsKept (returned ref f rest delivered) reply amount s =
      let sum = (s.cells ref).bytes_transferred + length f.payload in
      changed s ref
        (record (s.cells ref) { bytes_transferred = min (s.cells ref).manifest.size sum }) _ refl
        (ground arith)
  go_on-IsKept (returned ref f rest gave_up) reply amount s = still s _ refl
  go_on-IsKept (flushing ref) done amount s = elim (Bool-cases (s.cells ref).cancelled) [
    | inl e ↦ still s _ (rw e refl)
    | inr e ↦
        changed s ref (record (s.cells ref) { awaiting_verification = true }) _ refl (rw e refl)
  ]
  go_on-IsKept (flushing ref) thrown amount s = still s _ refl
  go_on-IsKept (completing ref) done amount s = still s _ refl
  go_on-IsKept (completing ref) thrown amount s = still s _ refl
  go_on-IsKept (failing ref) reply amount s =
      changed s ref (record (s.cells ref) { awaiting_verification = false }) _ refl refl
  go_on-IsKept (reporting ref) reply amount s = still s _ refl
