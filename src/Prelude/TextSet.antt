-- ===== src/Prelude/TextSet.antt =====
-- JavaScript's `Set` of strings, in insertion order, and `includes` on arrays of strings.
use mathlib.Core.Path.{◌≡◌, refl}
use mathlib.Core.Logic.{◌≢◌}
use mathlib.Core.Bool.{Bool, true, false, not, ◌&&◌, ◌||◌}
use mathlib.Core.List.{List, [], ◌∷◌, ◌++◌}
use native.Mathlib.Omega.{arith}
use risk_p2p.Prelude.Tests.{if◌then◌else◌}
use risk_p2p.Prelude.Lists.{keep}
use risk_p2p.Prelude.Text.{Text, text_eq, text_eq_iff, text_eq_self}

unfoldable pub has : Text → List Text → Bool
has p [] = false
has p (x ∷ xs) = text_eq x p || has p xs

unfoldable pub add : Text → List Text → List Text
add p xs = if has p xs then xs else xs ++ p ∷ []

unfoldable pub delete : Text → List Text → List Text
delete p [] = []
delete p (x ∷ xs) = let rest = delete p xs in if text_eq x p then rest else x ∷ rest

-- `new Set([...seen, ...xs])` where `seen` is a set already
unfoldable pub add_all : List Text → List Text → List Text
add_all seen [] = seen
add_all seen (x ∷ xs) = add_all (add x seen) xs

-- `[...new Set(xs)]`
unfoldable pub unique : List Text → List Text
unique xs = add_all [] xs

pub has-append : (p : Text) (xs ys : List Text) → has p (xs ++ ys) ≡ (has p xs || has p ys)
unfolding has
has-append p [] ys = refl
has-append p (x ∷ xs) ys = ground (arith, has-append p xs ys)

pub has-add_iff : (p q : Text) (xs : List Text) → has p (add q xs) ≡ (has p xs || text_eq q p)
unfolding add has
has-add_iff p q xs = ground (arith, has-append p xs (q ∷ []), text_eq_iff q p)

pub has-add : (p q : Text) (xs : List Text) → has p xs ≡ true → has p (add q xs) ≡ true
has-add p q xs h = ground (arith, has-add_iff p q xs)

pub has-add_self : (p : Text) (xs : List Text) → has p (add p xs) ≡ true
has-add_self p xs = ground (arith, has-add_iff p p xs, text_eq_self p)

pub has-delete :
    (p q : Text) (xs : List Text) → q ≢ p → has p xs ≡ true → has p (delete q xs) ≡ true
unfolding has delete
has-delete p q [] ne h = h
has-delete p q (x ∷ xs) ne h =
    ground (arith, text_eq_iff x p, text_eq_iff x q, has-delete p q xs ne)

pub has-delete_self : (p : Text) (xs : List Text) → has p (delete p xs) ≡ false
unfolding has delete
has-delete_self p [] = refl
has-delete_self p (x ∷ xs) = ground (arith, has-delete_self p xs)

has-add_all : (p : Text) (seen xs : List Text) → has p (add_all seen xs) ≡ (has p seen || has p xs)
unfolding add_all has
has-add_all p seen [] = ground arith
has-add_all p seen (x ∷ xs) = ground (arith, has-add_all p (add x seen) xs, has-add_iff p x seen)

pub has-unique : (p : Text) (xs : List Text) → has p (unique xs) ≡ has p xs
unfolding unique has
has-unique p xs = has-add_all p [] xs

pub has-keep : (p : Text) (q : Text → Bool) (xs : List Text) → has p (keep q xs) ≡ (has p xs && q p)
unfolding has
has-keep p q [] = refl
has-keep p q (x ∷ xs) = ground (arith, has-keep p q xs, text_eq_iff x p)

pub has-delete_iff :
    (p q : Text) (xs : List Text) → has p (delete q xs) ≡ (has p xs && not (text_eq q p))
unfolding has delete
has-delete_iff p q [] = refl
has-delete_iff p q (x ∷ xs) =
    ground (arith, text_eq_iff x p, text_eq_iff x q, text_eq_iff q p, has-delete_iff p q xs)
