-- ===== src/Prelude/Lists/Every.antt =====
-- A test that every element of a list passes, or none.
use mathlib.Core.Path.{◌≡◌, refl}
use mathlib.Core.Logic.{inl, inr}
use mathlib.Core.List.{List, [], ◌∷◌, ◌++◌, map}
use mathlib.Core.Bool.{Bool, true, false, not, ◌&&◌, ◌||◌}
use native.Mathlib.Omega.{arith}
use pyre.Prelude.Tests.{Bool-cases}
use pyre.Prelude.Lists.Basic.{is_empty}
use pyre.Prelude.Lists.Search.{filter, any}

pub &&-true : {a b : Bool} → (a && b) ≡ true → (a ≡ true) × (b ≡ true)
&&-true h = ground (arith, h)

pub true-&& : {a b : Bool} → a ≡ true → b ≡ true → (a && b) ≡ true
true-&& h k = rw (h, k) refl

pub ||-false : {a b : Bool} → (a || b) ≡ false → (a ≡ false) × (b ≡ false)
||-false h = ground (arith, h)

module _ {ℓ} {A : Type ℓ} where
  abbrev pub all : (A → Bool) → List A → Bool
  all p [] = true
  all p (x ∷ xs) = p x && all p xs

  pub all-append_one :
      (p : A → Bool) (xs : List A) (y : A)
      → all p xs ≡ true
      → p y ≡ true
      → all p (xs ++ y ∷ []) ≡ true
  all-append_one p [] y h k = rw k refl
  all-append_one p (x ∷ xs) y h k = true-&& (&&-true h).0 (all-append_one p xs y (&&-true h).1 k)

  pub all-filter : (p q : A → Bool) (xs : List A) → all p xs ≡ true → all p (filter q xs) ≡ true
  all-filter p q [] h = refl
  all-filter p q (x ∷ xs) h = elim (Bool-cases (q x)) [
    | inl e ↦ rw e (true-&& (&&-true h).0 (all-filter p q xs (&&-true h).1))
    | inr e ↦ rw e (all-filter p q xs (&&-true h).1)
  ]

  pub all-map :
      (p : A → Bool) (f : A → A) (xs : List A)
      → ((x : A) → p x ≡ true → p (f x) ≡ true)
      → all p xs ≡ true
      → all p (map f xs) ≡ true
  all-map p f [] k h = refl
  all-map p f (x ∷ xs) k h = true-&& (k x (&&-true h).0) (all-map p f xs k (&&-true h).1)

  pub any-map :
      (p : A → Bool) (f : A → A) (xs : List A)
      → ((x : A) → p (f x) ≡ p x)
      → any p (map f xs) ≡ any p xs
  any-map p f [] k = refl
  any-map p f (x ∷ xs) k = rw (k x, any-map p f xs k) refl

  pub is_empty-map : (f : A → A) (xs : List A) → is_empty (map f xs) ≡ is_empty xs
  is_empty-map f [] = refl
  is_empty-map f (x ∷ xs) = refl

  pub is_empty-append_one : (xs : List A) (y : A) → is_empty (xs ++ y ∷ []) ≡ false
  is_empty-append_one [] y = refl
  is_empty-append_one (x ∷ xs) y = refl

  pub none-filter : (p q : A → Bool) (xs : List A) → any p xs ≡ false → any p (filter q xs) ≡ false
  none-filter p q [] h = refl
  none-filter p q (x ∷ xs) h = elim (Bool-cases (q x)) [
    | inl e ↦ rw (e, (||-false {a = p x} h).0) (none-filter p q xs (||-false {a = p x} h).1)
    | inr e ↦ rw e (none-filter p q xs (||-false {a = p x} h).1)
  ]

  pub none-append_one :
      (p : A → Bool) (xs : List A) (y : A)
      → any p xs ≡ false
      → p y ≡ false
      → any p (xs ++ y ∷ []) ≡ false
  none-append_one p [] y h k = rw k refl
  none-append_one p (x ∷ xs) y h k =
      rw (||-false {a = p x} h).0 (none-append_one p xs y (||-false {a = p x} h).1 k)

  -- What a filter drops is not there afterwards.
  pub none-filtered : (p : A → Bool) (xs : List A) → any p (filter (λ x. not (p x)) xs) ≡ false
  none-filtered p [] = refl
  none-filtered p (x ∷ xs) = elim (Bool-cases (p x)) [
    | inl e ↦ rw e (none-filtered p xs)
    | inr e ↦ rw (e, e) (none-filtered p xs)
  ]
