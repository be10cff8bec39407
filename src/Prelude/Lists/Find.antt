-- ===== src/Prelude/Lists/Find.antt =====
-- The first element of a list that passes a test.
use mathlib.Core.Path.{◌≡◌, refl, subst, ap}
use mathlib.Core.Logic.{◌⊎◌, inl, inr}
use mathlib.Core.List.{List, [], ◌∷◌, map}
use mathlib.Core.Option.{Option, none, some}
use mathlib.Core.Option
use mathlib.Core.Bool.{Bool, true, false}
use native.Mathlib.Omega.{arith}
use pyre.Prelude.Tests.{Bool-cases, if◌then◌else◌}
use pyre.Prelude.Lists.Search.{find?, any}
use pyre.Prelude.Lists.Every.{all, &&-true, ||-false}

module _ {ℓ} {A : Type ℓ} where
  -- It is the head, or it is found in the tail.
  pub find?-cons :
      (p : A → Bool) (x : A) (xs : List A) (a : A)
      → find? p (x ∷ xs) ≡ some a
      → ((p x ≡ true) × (x ≡ a)) ⊎ ((p x ≡ false) × (find? p xs ≡ some a))
  find?-cons p x xs a h = elim (Bool-cases (p x)) [
    | inl e ↦
        inl (e, Option.some-injective x a (rw⁻¹ (ap (λ b. if b then some x else find? p xs) e) h))
    | inr e ↦ inr (e, rw⁻¹ (ap (λ b. if b then some x else find? p xs) e) h)
  ]

  pub find?-here : (p : A → Bool) (xs : List A) (a : A) → find? p xs ≡ some a → p a ≡ true
  find?-here p [] a h = absurd (ground (arith, h))
  find?-here p (x ∷ xs) a h = elim (find?-cons p x xs a h) [
    | inl (e, same) ↦ subst (λ y. p y ≡ true) same e
    | inr (e, later) ↦ find?-here p xs a later
  ]

  pub all-found :
      (p q : A → Bool) (xs : List A) (a : A) → all p xs ≡ true → find? q xs ≡ some a → p a ≡ true
  all-found p q [] a k h = absurd (ground (arith, h))
  all-found p q (x ∷ xs) a k h = elim (find?-cons q x xs a h) [
    | inl (e, same) ↦ subst (λ y. p y ≡ true) same (&&-true k).0
    | inr (e, later) ↦ all-found p q xs a (&&-true k).1 later
  ]

  -- An update of the elements that pass the test, which keeps the test.
  pub find?-map :
      (p : A → Bool) (f : A → A) (xs : List A)
      → ((x : A) → p (f x) ≡ p x)
      → find? p (map (λ x. if p x then f x else x) xs) ≡ Option.map f (find? p xs)
  find?-map p f [] k = refl
  find?-map p f (x ∷ xs) k = elim (Bool-cases (p x)) [
    | inl e ↦ rw (e, k x, e) refl
    | inr e ↦ rw (e, e) (find?-map p f xs k)
  ]

  pub none_found : (p : A → Bool) (xs : List A) (a : A) → any p xs ≡ false → ¬ (find? p xs ≡ some a)
  none_found p [] a h found = ground (arith, found)
  none_found p (x ∷ xs) a h found = elim (find?-cons p x xs a found) [
    | inl (e, same) ↦ ground (arith, (||-false {a = p x} h).0, e)
    | inr (e, later) ↦ none_found p xs a (||-false {a = p x} h).1 later
  ]

  -- What is found is none of those that are not there.
  pub found_other :
      (p q : A → Bool) (xs : List A) (a : A) → any q xs ≡ false → find? p xs ≡ some a → q a ≡ false
  found_other p q [] a h found = absurd (ground (arith, found))
  found_other p q (x ∷ xs) a h found = elim (find?-cons p x xs a found) [
    | inl (e, same) ↦ subst (λ y. q y ≡ false) same (||-false {a = q x} h).0
    | inr (e, later) ↦ found_other p q xs a (||-false {a = q x} h).1 later
  ]
