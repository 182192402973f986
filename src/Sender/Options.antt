-- ===== src/Sender/Options.antt =====
-- packages/rtc/src/file-transfer.ts: the options of the sender. `none` is `undefined`.
use mathlib.Core.Option.{some-injective}
use risk_p2p.Prelude.{
  ℕ, ◌≤◌, ◌<◌, ◌≡◌, refl, subst, Bool, true, false, ◌&&◌, Option, none, some, List, arith, ltb,
  if◌then◌else◌,
}
use risk_p2p.Prelude.Text.{Text}
use risk_p2p.Prelude.Js.{Number, nat, neg, fraction, infinite, nan, is_safe, above}
use risk_p2p.Sender.{Limits}

abbrev pub default_max_concurrent_transfers : ℕ
default_max_concurrent_transfers = 2

abbrev pub default_high_water_mark_bytes : ℕ
default_high_water_mark_bytes = 4194304

abbrev pub default_low_water_mark_bytes : ℕ
default_low_water_mark_bytes = 1048576

abbrev pub default_retry_limit : ℕ
default_retry_limit = 3

abbrev pub default_retry_delay_ms : ℕ
default_retry_delay_ms = 500

unfoldable pub positive_integer : Option Number → ℕ → ℕ
positive_integer (some (nat n)) fallback =
    if is_safe (nat n) && above (nat n) 0 then n else fallback
positive_integer _ fallback = fallback

unfoldable pub non_negative_integer : Option Number → ℕ → ℕ
non_negative_integer (some (nat n)) fallback = if is_safe (nat n) then n else fallback
non_negative_integer _ fallback = fallback

pub record AttachmentTransferSenderOptions : Type 0 where
  pub max_concurrent_transfers : Option Number
  pub high_water_mark_bytes : Option Number
  pub low_water_mark_bytes : Option Number
  pub retry_limit : Option Number
  pub retry_delay_ms : Option Number
  pub has_wait_for_low : Bool

-- The constructor; `none` if it throws.
unfoldable pub sender_limits : (List ℕ → Text) → AttachmentTransferSenderOptions → Option Limits
unfolding positive_integer non_negative_integer
sender_limits sha256 options =
    let high = positive_integer options.high_water_mark_bytes default_high_water_mark_bytes in
    let low = positive_integer options.low_water_mark_bytes default_low_water_mark_bytes in
    if ltb high low
    then none
    else some (record {
      max_concurrent_transfers =
          positive_integer options.max_concurrent_transfers default_max_concurrent_transfers;
      high_water_mark_bytes = high;
      low_water_mark_bytes = low;
      retry_limit = non_negative_integer options.retry_limit default_retry_limit;
      retry_delay_ms = non_negative_integer options.retry_delay_ms default_retry_delay_ms;
      waits_for_low = options.has_wait_for_low;
      sha256 = sha256;
    })

positive : (o : Option Number) (n : ℕ) → 0 < n → 0 < positive_integer o n
unfolding positive_integer is_safe above
positive none n h = h
positive (some (nat m)) n h = ground arith
positive (some (neg m)) n h = h
positive (some (fraction sign w d)) n h = h
positive (some (infinite sign)) n h = h
positive (some nan) n h = h

built :
    (refused : Bool) (r l : Limits)
    → (if refused then none else some r) ≡ some l
    → (refused ≡ false) × (r ≡ l)
built true r l e = absurd cc
built false r l e = (refl, some-injective r l e)

-- A sender can always run a transfer, and the mark at which it goes on is not above the one at which
-- it waits.
pub sender_limits_bounds :
    (sha256 : List ℕ → Text) (options : AttachmentTransferSenderOptions) (l : Limits)
    → sender_limits sha256 options ≡ some l
    → (0 < l.max_concurrent_transfers) × (l.low_water_mark_bytes ≤ l.high_water_mark_bytes)
unfolding sender_limits
sender_limits_bounds sha256 options l e =
    let made =
      built
        (ltb (positive_integer options.high_water_mark_bytes default_high_water_mark_bytes)
          (positive_integer options.low_water_mark_bytes default_low_water_mark_bytes))
        _ l e in
    subst
      (λ l. (0 < l.max_concurrent_transfers) × (l.low_water_mark_bytes ≤ l.high_water_mark_bytes))
      made.1
      (
        positive options.max_concurrent_transfers default_max_concurrent_transfers (omega arith),
        ground arith,
      )
