-- ===== src/Prelude/Waits.antt =====
-- A list from which an element is taken at a place: the handlers that wait.
use Prim.Native.Nat.{ℕ, zero, suc, ◌+◌}
use mathlib.Core.Path.{◌≡◌, refl, subst}
use mathlib.Core.Bool.{Bool, true, false, ◌&&◌}
use mathlib.Core.Option.{some, some-injective}
use mathlib.Core.List.{List, [], ◌∷◌, ◌++◌}
use native.Mathlib.Omega.{arith}
use risk_p2p.Prelude.Lists.{all, get_elem?, keep, length}
use risk_p2p.Prelude.Tests.{if◌then◌else◌}

-- The list without its element at `i`.
abbrev pub remove_at {ℓ} : {A : Type ℓ} → ℕ → List A → List A
remove_at i [] = []
remove_at zero (x ∷ xs) = xs
remove_at (suc i) (x ∷ xs) = x ∷ remove_at i xs

pub all-remove_at {ℓ} :
    {A : Type ℓ} (f : A → Bool) (i : ℕ) (xs : List A)
    → all f xs ≡ true
    → all f (remove_at i xs) ≡ true
all-remove_at f i [] h = refl
all-remove_at f zero (y ∷ xs) h = ground arith
all-remove_at f (suc i) (y ∷ xs) h = ground (arith, all-remove_at f i xs)

pub all_at {ℓ} :
    {A : Type ℓ} (f : A → Bool) (i : ℕ) (xs : List A) (x : A)
    → all f xs ≡ true
    → get_elem? xs i ≡ some x
    → f x ≡ true
all_at f i [] x h e = cc
all_at f zero (y ∷ xs) x h e = ground arith
all_at f (suc i) (y ∷ xs) x h e = all_at f i xs x (ground arith) e

pub all_imp {ℓ} :
    {A : Type ℓ} (f g : A → Bool) (xs : List A)
    → ((x : A) → f x ≡ true → g x ≡ true)
    → all f xs ≡ true
    → all g xs ≡ true
all_imp f g [] k h = refl
all_imp f g (x ∷ xs) k h = ground (arith, k x, all_imp f g xs k)

pub all-append {ℓ} :
    {A : Type ℓ} (f : A → Bool) (xs ys : List A) → all f (xs ++ ys) ≡ (all f xs && all f ys)
all-append f [] ys = refl
all-append f (x ∷ xs) ys = ground (arith, all-append f xs ys)

-- The elements that pass, with one of them counted on its own.
pub length-keep-remove_at {ℓ} :
    {A : Type ℓ} (p : A → Bool) (i : ℕ) (xs : List A) (x : A)
    → get_elem? xs i ≡ some x
    → length (keep p xs) ≡ (if p x then 1 else 0) + length (keep p (remove_at i xs))
length-keep-remove_at p i [] x e = cc
length-keep-remove_at p zero (y ∷ xs) x e = ground arith
length-keep-remove_at p (suc i) (y ∷ xs) x e = ground (arith, length-keep-remove_at p i xs x e)

-- Taking an element that does not pass.
pub keep-remove_at {ℓ} :
    {A : Type ℓ} (p : A → Bool) (i : ℕ) (xs : List A) (x : A)
    → get_elem? xs i ≡ some x
    → p x ≡ false
    → keep p (remove_at i xs) ≡ keep p xs
keep-remove_at p i [] x e h = cc
keep-remove_at p zero (y ∷ xs) x e h = ground arith
keep-remove_at p (suc i) (y ∷ xs) x e h = ground (arith, keep-remove_at p i xs x e h)

-- The elements for which two tests agree.
pub keep_same {ℓ} :
    {A : Type ℓ} (p q g : A → Bool) (xs : List A)
    → ((x : A) → g x ≡ true → p x ≡ q x)
    → all g xs ≡ true
    → keep p xs ≡ keep q xs
keep_same p q g [] same h = refl
keep_same p q g (x ∷ xs) same h = ground (arith, same x, keep_same p q g xs same)

-- A predicate for every element.
abbrev pub Every {ℓ} : {A : Type ℓ} → (A → Type 0) → List A → Type 0
Every P [] = Unit
Every P (x ∷ xs) = P x × Every P xs

pub Every-append {ℓ} :
    {A : Type ℓ} (P : A → Type 0) (xs ys : List A) → Every P xs → Every P ys → Every P (xs ++ ys)
Every-append P [] ys a b = b
Every-append P (x ∷ xs) ys a b = (a.0, Every-append P xs ys a.1 b)

pub Every-at {ℓ} :
    {A : Type ℓ} (P : A → Type 0) (i : ℕ) (xs : List A) (x : A)
    → Every P xs
    → get_elem? xs i ≡ some x
    → P x
Every-at P i [] x a e = absurd cc
Every-at P zero (y ∷ xs) x a e = subst P (some-injective y x e) a.0
Every-at P (suc i) (y ∷ xs) x a e = Every-at P i xs x a.1 e

pub Every-remove_at {ℓ} :
    {A : Type ℓ} (P : A → Type 0) (i : ℕ) (xs : List A) → Every P xs → Every P (remove_at i xs)
Every-remove_at P i [] a = a
Every-remove_at P zero (y ∷ xs) a = a.1
Every-remove_at P (suc i) (y ∷ xs) a = (a.0, Every-remove_at P i xs a.1)

pub Every-imp {ℓ} :
    {A : Type ℓ} (P Q : A → Type 0) (xs : List A) → ((x : A) → P x → Q x) → Every P xs → Every Q xs
Every-imp P Q [] f a = a
Every-imp P Q (x ∷ xs) f a = (f x a.0, Every-imp P Q xs f a.1)

-- What holds for the elements that fail a test that none passes.
pub Every-failing {ℓ} :
    {A : Type ℓ} (p : A → Bool) (Q : A → Type 0) (xs : List A)
    → ((x : A) → p x ≡ false → Q x)
    → length (keep p xs) ≡ 0
    → Every Q xs
Every-failing p Q [] f h = _
Every-failing p Q (x ∷ xs) f h =
    let fails : p x ≡ false = ground arith in (f x fails, Every-failing p Q xs f (ground arith))
