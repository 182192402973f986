-- ===== src/Sender/Pump.antt =====
-- packages/rtc/src/file-transfer.ts: how many transfers `pump` of the sender starts.
use risk_p2p.Prelude.{
  ℕ, zero, suc, ◌+◌, ◌≤◌, ◌≡◌, Bool, true, false, ◌&&◌, none, arith, ltb, length, any, find, inl,
  inr, Bool-cases, Option-cases, find_passes, find-any,
}
use risk_p2p.Prelude.Map.{lookup, length-insert_new}
use risk_p2p.Sender.{Sender, Limits, is_active, startable, start, pump_rounds, pump}

startable-new :
    (s : Sender) (ref : ℕ)
    → startable s ref ≡ true
    → lookup (s.cells ref).transfer_id s.active ≡ none
unfolding startable is_active
startable-new s ref h = ground arith

length-start :
    (s : Sender) (ref : ℕ)
    → startable s ref ≡ true
    → length (start ref s).sender.active ≡ length s.active + 1
unfolding start
length-start s ref h =
    length-insert_new (s.cells ref).transfer_id ref s.active (startable-new s ref h)

module _ (limits : Limits) where
  -- A transfer could be started.
  abbrev pub has_work : Sender → Bool
  has_work s = ltb (length s.active) limits.max_concurrent_transfers && any (startable s) s.queue

  pump_rounds-has_work :
      (n : ℕ) (s : Sender)
      → limits.max_concurrent_transfers ≤ length s.active + n
      → has_work (pump_rounds limits n s).sender ≡ false
  unfolding pump_rounds
  pump_rounds-has_work zero s h = ground arith
  pump_rounds-has_work (suc n) s h =
      elim (Bool-cases (ltb (length s.active) limits.max_concurrent_transfers)) [
        | inr full ↦ rw full (ground arith)
        | inl free ↦ rw free (elim (Option-cases (find (startable s) s.queue)) [
          | inl nothing ↦ rw nothing (rw (find-any (startable s) s.queue nothing) (ground arith))
          | inr (ref, e) ↦
              let grown = length-start s ref (find_passes (startable s) s.queue ref e) in
              rw e (pump_rounds-has_work n (start ref s).sender (omega arith))
        ])
      ]

  pub pump_rounds-length :
      (n : ℕ) (s : Sender)
      → length s.active ≤ limits.max_concurrent_transfers
      → length (pump_rounds limits n s).sender.active ≤ limits.max_concurrent_transfers
  unfolding pump_rounds
  pump_rounds-length zero s h = h
  pump_rounds-length (suc n) s h =
      elim (Bool-cases (ltb (length s.active) limits.max_concurrent_transfers)) [
        | inr full ↦ rw full h
        | inl free ↦ rw free (elim (Option-cases (find (startable s) s.queue)) [
          | inl nothing ↦ rw nothing h
          | inr (ref, e) ↦
              let grown = length-start s ref (find_passes (startable s) s.queue ref e) in
              let room : length (start ref s).sender.active ≤ limits.max_concurrent_transfers =
                ground arith in
              rw e (pump_rounds-length n (start ref s).sender room)
        ])
      ]

  -- The loop of `pump` ends after at most as many rounds as transfers may run at once, and then either
  -- so many run or no transfer of the queue is left that may be started.
  pub pump-has_work : (s : Sender) → has_work (pump limits s).sender ≡ false
  unfolding pump
  pump-has_work s = pump_rounds-has_work limits.max_concurrent_transfers s (omega arith)
