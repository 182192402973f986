-- ===== src/Prelude/Js.antt =====
-- JavaScript values as a parser of JSON or a structured clone hands them over, and the tests on
-- numbers that the source uses.
use Prim.Native.Nat.{ℕ, suc}
use mathlib.Core.Bool.{Bool, true, false, not, ◌&&◌}
use risk_p2p.Prelude.Tests.{ltb, leb, ◌==◌, if◌then◌else◌}
use risk_p2p.Prelude.Text.{Text, text_eq}

-- `neg n` is -(n + 1); `fraction s w d` is a finite number that is no integer, of sign `s` (true:
-- below 0) and whole part `w`, told from the others by `d`; `infinite true` is -Infinity.
pub data Number : Type 0 where
  nat : ℕ → Number
  neg : ℕ → Number
  fraction : Bool → ℕ → ℕ → Number
  infinite : Bool → Number
  nan : Number

abbrev pub max_safe_integer : ℕ
max_safe_integer = 9007199254740991

-- `Number.isSafeInteger(x)`
unfoldable pub is_safe : Number → Bool
is_safe (nat n) = leb n max_safe_integer
is_safe (neg n) = ltb n max_safe_integer
is_safe (fraction s w d) = false
is_safe (infinite s) = false
is_safe nan = false

-- `Number.isFinite(x)`
unfoldable pub is_finite : Number → Bool
is_finite (infinite s) = false
is_finite nan = false
is_finite _ = true

-- `x < k` for a natural number `k`
unfoldable pub below : Number → ℕ → Bool
below (nat n) k = ltb n k
below (neg n) k = true
below (fraction true w d) k = true
below (fraction false w d) k = ltb w k
below (infinite s) k = s
below nan k = false

-- `x > k` for a natural number `k`
unfoldable pub above : Number → ℕ → Bool
above (nat n) k = ltb k n
above (neg n) k = false
above (fraction true w d) k = false
above (fraction false w d) k = leb k w
above (infinite s) k = not s
above nan k = false

-- `x === k` for a natural number `k`
unfoldable pub equals : Number → ℕ → Bool
equals (nat n) k = n == k
equals _ k = false

-- `a` as a list and as an object are two types, declared with the values.
mutual
  pub data Value : Type 0 where
    undefined : Value
    null : Value
    bool : Bool → Value
    num : Number → Value
    str : Text → Value
    arr : Items → Value
    obj : Fields → Value

  pub data Items : Type 0 where
    nil : Items
    cons : Value → Items → Items

  pub data Fields : Type 0 where
    end : Fields
    field : Text → Value → Fields → Fields

-- The property `k` of an object; `undefined` if it is missing.
unfoldable pub get : Text → Fields → Value
get k end = undefined
get k (field j v fs) = if text_eq j k then v else get k fs

unfoldable pub count_items : Items → ℕ
count_items nil = 0
count_items (cons v vs) = suc (count_items vs)

unfoldable pub all_items : (Value → Bool) → Items → Bool
all_items p nil = true
all_items p (cons v vs) = p v && all_items p vs
