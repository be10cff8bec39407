-- ===== src/Prelude/Lists/Search.antt =====
-- Membership, filters and positions in lists of identifiers, by the Boolean equality of numbers.
use Prim.Native.Nat.{ℕ, suc, ◌+◌, ◌<◌, ◌≤◌}
use mathlib.Core.Path.{◌≡◌, refl}
use mathlib.Core.Logic.{◌≢◌}
use mathlib.Core.List.{List, [], ◌∷◌, ◌++◌}
use mathlib.Core.Option.{Option, none, some}
use mathlib.Core.Option
use mathlib.Core.Bool.{Bool, true, false, not, ◌&&◌, ◌||◌}
use native.Mathlib.Omega.{arith}
use pyre.Prelude.Tests.{◌==◌, if◌then◌else◌}
use pyre.Prelude.Lists.Basic.{length}

module _ {ℓ} {A : Type ℓ} where
  abbrev pub filter : (A → Bool) → List A → List A
  filter p [] = []
  filter p (x ∷ xs) = if p x then x ∷ filter p xs else filter p xs

  abbrev pub find? : (A → Bool) → List A → Option A
  find? p [] = none
  find? p (x ∷ xs) = if p x then some x else find? p xs

  abbrev pub any : (A → Bool) → List A → Bool
  any p [] = false
  any p (x ∷ xs) = p x || any p xs

  -- The first index that passes the test.
  abbrev pub position : (A → Bool) → List A → Option ℕ
  position p [] = none
  position p (x ∷ xs) = if p x then some 0 else Option.map suc (position p xs)

  pub filter-append :
      (p : A → Bool) (xs ys : List A) → filter p (xs ++ ys) ≡ filter p xs ++ filter p ys
  filter-append p [] ys = refl
  filter-append p (x ∷ xs) ys = ground (arith, filter-append p xs ys)

  pub length-filter-le : (p : A → Bool) (xs : List A) → length (filter p xs) ≤ length xs
  length-filter-le p [] = omega arith
  length-filter-le p (x ∷ xs) = ground (arith, length-filter-le p xs)

abbrev pub contains : List ℕ → ℕ → Bool
contains [] a = false
contains (x ∷ xs) a = (x == a) || contains xs a

abbrev pub nodup : List ℕ → Bool
nodup [] = true
nodup (x ∷ xs) = not (contains xs x) && nodup xs

abbrev pub count : ℕ → List ℕ → ℕ
count a [] = 0
count a (x ∷ xs) = (if x == a then 1 else 0) + count a xs

abbrev pub remove : ℕ → List ℕ → List ℕ
remove a [] = []
remove a (x ∷ xs) = if x == a then remove a xs else x ∷ remove a xs

pub contains-append :
    (xs ys : List ℕ) (a : ℕ) → contains (xs ++ ys) a ≡ (contains xs a || contains ys a)
contains-append [] ys a = refl
contains-append (x ∷ xs) ys a = ground (arith, contains-append xs ys a)

pub remove-append : (a : ℕ) (xs ys : List ℕ) → remove a (xs ++ ys) ≡ remove a xs ++ remove a ys
remove-append a [] ys = refl
remove-append a (x ∷ xs) ys = ground (arith, remove-append a xs ys)

pub remove_absent : (a : ℕ) (xs : List ℕ) → contains xs a ≡ false → remove a xs ≡ xs
remove_absent a [] h = refl
remove_absent a (x ∷ xs) h = ground (arith, remove_absent a xs)

pub count-append : (a : ℕ) (xs ys : List ℕ) → count a (xs ++ ys) ≡ count a xs + count a ys
count-append a [] ys = omega arith
count-append a (x ∷ xs) ys = ground (arith, count-append a xs ys)

pub count_absent : (a : ℕ) (xs : List ℕ) → contains xs a ≡ false → count a xs ≡ 0
count_absent a [] h = refl
count_absent a (x ∷ xs) h = ground (arith, count_absent a xs)

pub count_present : (a : ℕ) (xs : List ℕ) → contains xs a ≡ true → 0 < count a xs
count_present a [] h = absurd (ground arith)
count_present a (x ∷ xs) h = ground (arith, count_present a xs)

pub contains_of_count : (a : ℕ) (xs : List ℕ) → 0 < count a xs → contains xs a ≡ true
contains_of_count a [] h = absurd (omega arith)
contains_of_count a (x ∷ xs) h = ground (arith, contains_of_count a xs)

pub count-remove_self : (a : ℕ) (xs : List ℕ) → count a (remove a xs) ≡ 0
count-remove_self a [] = refl
count-remove_self a (x ∷ xs) = ground (arith, count-remove_self a xs)

pub count-remove_ne : (a b : ℕ) (xs : List ℕ) → a ≢ b → count b (remove a xs) ≡ count b xs
count-remove_ne a b [] h = refl
count-remove_ne a b (x ∷ xs) h = ground (arith, count-remove_ne a b xs h)

pub length-remove : (a : ℕ) (xs : List ℕ) → length (remove a xs) + count a xs ≡ length xs
length-remove a [] = refl
length-remove a (x ∷ xs) = ground (arith, length-remove a xs)
