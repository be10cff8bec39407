-- ===== src/Layout/Focus.antt =====
-- Looking panes up by place: the rectangle of a pane, and the pane in a direction.
use pyre.Prelude.{ℕ, ◌≤◌, ◌≡◌, refl, sym, ap, ap₂, ◌∙◌, arith, inl, inr, ◌⊎◌, map}
use pyre.Prelude.{Bool, true, List, [], ◌∷◌, ◌++◌, some, none}
use pyre.Prelude.{◌==◌, if◌then◌else◌, ltb, subst, contains, filter, find?, Bool-cases}
use mathlib.Core.List.{map-append}
use pyre.Layout.Tree.{
  LayoutNode, Children, leaf, hsplit, vsplit, nil, cons, all_leaves, children_leaves,
}
use pyre.Layout.Geometry.{Rect, leaves_inner, stack, columns, rect_for, lesser, min_by_key, nearest}

abbrev pub id_of : ℕ × Rect → ℕ
id_of e = e.0

mutual
  unfolding leaves_inner all_leaves

  pub ids-leaves_inner : (t : LayoutNode) (vp : Rect) → map id_of (leaves_inner t vp) ≡ all_leaves t
  ids-leaves_inner (leaf id) vp = refl
  ids-leaves_inner (hsplit cs) vp = ids-stack cs vp _ vp.y
  ids-leaves_inner (vsplit cs) vp = ids-columns cs vp _ vp.x

  ids-stack :
      (cs : Children) (vp : Rect) (total y : ℕ)
      → map id_of (stack cs vp total y) ≡ children_leaves cs
  ids-stack nil vp total y = refl
  ids-stack (cons n w cs) vp total y =
      rw map-append (ap₂ ◌++◌ (ids-leaves_inner n _) (ids-stack cs vp total _))

  ids-columns :
      (cs : Children) (vp : Rect) (total x : ℕ)
      → map id_of (columns cs vp total x) ≡ children_leaves cs
  ids-columns nil vp total x = refl
  ids-columns (cons n w cs) vp total x =
      rw map-append (ap₂ ◌++◌ (ids-leaves_inner n _) (ids-columns cs vp total _))

-- An element of a list.
abbrev pub In : ℕ × Rect → List (ℕ × Rect) → Type 0
In e [] = ⊥
In e (x ∷ l) = (e ≡ x) ⊎ In e l

pub find?-In :
    (p : ℕ × Rect → Bool) (l : List (ℕ × Rect)) {e : ℕ × Rect}
    → find? p l ≡ some e
    → (p e ≡ true) × In e l
find?-In p [] h = absurd (ground arith)
find?-In p (x ∷ l) {e} h = elim (Bool-cases (p x)) [
  | inl y ↦ let q : x ≡ e = ground arith in (ap p (sym q) ∙ y, inl (sym q))
  | inr n ↦ let (y, i) = find?-In p l {e = e} (ground arith) in (y, inr i)
]

pub find_by_id :
    (c : ℕ) (l : List (ℕ × Rect))
    → contains (map id_of l) c ≡ true
    → (r : Rect) × (find? (λ e. e.0 == c) l ≡ some (c, r))
find_by_id c [] h = absurd (ground arith)
find_by_id c ((i, r) ∷ l) h = elim (Bool-cases (i == c)) [
  | inl y ↦ (r, ground arith)
  | inr n ↦ let (s, q) = find_by_id c l (ground arith) in (s, ground arith)
]

-- Every pane of the tree has its rectangle in any viewport.
pub rect_for_total :
    (t : LayoutNode) (vp : Rect) (target : ℕ)
    → contains (all_leaves t) target ≡ true
    → (r : Rect) × (rect_for t vp target ≡ some r) × In (target, r) (leaves_inner t vp)
unfolding rect_for
rect_for_total t vp p h =
    let (r, e) = find_by_id p (leaves_inner t vp) (rw (ids-leaves_inner t vp) h) in
    (r, rw e, (find?-In (λ e. e.0 == p) (leaves_inner t vp) e).1)

abbrev pub All : (ℕ × Rect → Type 0) → List (ℕ × Rect) → Type 0
All P [] = Unit
All P (x ∷ l) = P x × All P l

module _ (key : Rect → ℕ) where
  lesser-le :
      (x best : ℕ × Rect)
      → (key (lesser key x best).1 ≤ key x.1) × (key (lesser key x best).1 ≤ key best.1)
  lesser-le x best = ground arith

  lesser_cases : (x best : ℕ × Rect) → (lesser key x best ≡ x) ⊎ (lesser key x best ≡ best)
  lesser_cases x best = elim (Bool-cases (ltb (key x.1) (key best.1))) [
    | inl e ↦ inl (ap (λ b. if b then x else best) e)
    | inr e ↦ inr (ap (λ b. if b then x else best) e)
  ]

  -- No element has a smaller key than the one picked.
  min_by_key-le-best :
      (best : ℕ × Rect) (l : List (ℕ × Rect)) → key (min_by_key key best l).1 ≤ key best.1
  min_by_key-le-best best [] = omega arith
  min_by_key-le-best best (x ∷ l) =
      omega (arith, min_by_key-le-best (lesser key x best) l, lesser-le x best)

  min_by_key-le :
      (best : ℕ × Rect) (l : List (ℕ × Rect)) → All (λ e. key (min_by_key key best l).1 ≤ key e.1) l
  min_by_key-le best [] = tt
  min_by_key-le best (x ∷ l) = (
    omega (arith, min_by_key-le-best (lesser key x best) l, lesser-le x best),
    min_by_key-le (lesser key x best) l,
  )

  min_by_key-In : (best : ℕ × Rect) (l : List (ℕ × Rect)) → In (min_by_key key best l) (best ∷ l)
  min_by_key-In best [] = inl refl
  min_by_key-In best (x ∷ l) = elim (min_by_key-In (lesser key x best) l) [
    | inl q ↦ elim (lesser_cases x best) [ inl e ↦ inr (inl (q ∙ e)) | inr e ↦ inl (q ∙ e) ]
    | inr i ↦ inr (inr i)
  ]

  pub nearest_lem :
      (l : List (ℕ × Rect)) {e : ℕ × Rect}
      → nearest key l ≡ some e
      → In e l × All (λ x. key e.1 ≤ key x.1) l
  nearest_lem [] h = absurd (ground arith)
  nearest_lem (x ∷ l) {e} h =
      let q : min_by_key key x l ≡ e = ground arith in
      subst (λ m. In m (x ∷ l) × All (λ y. key m.1 ≤ key y.1) (x ∷ l)) q
        (min_by_key-In x l, (min_by_key-le-best x l, min_by_key-le x l))

pub filter-In :
    (p : ℕ × Rect → Bool) (l : List (ℕ × Rect)) (e : ℕ × Rect)
    → In e (filter p l)
    → (p e ≡ true) × In e l
filter-In p [] e h = absurd h
filter-In p (x ∷ l) e h = elim (Bool-cases (p x)) [
  | inl y ↦ elim (subst (λ b. In e (if b then x ∷ filter p l else filter p l)) y h) [
    | inl q ↦ (ap p q ∙ y, inl q)
    | inr i ↦ let (a, b) = filter-In p l e i in (a, inr b)
  ]
  | inr n ↦
      let (a, b) =
        filter-In p l e (subst (λ b. In e (if b then x ∷ filter p l else filter p l)) n h) in
      (a, inr b)
]

pub In-filter :
    (p : ℕ × Rect → Bool) (l : List (ℕ × Rect)) (e : ℕ × Rect)
    → p e ≡ true
    → In e l
    → In e (filter p l)
In-filter p [] e y h = h
In-filter p (x ∷ l) e y (inl q) =
    subst (λ b. In e (if b then x ∷ filter p l else filter p l)) (sym (ap p (sym q) ∙ y)) (inl q)
In-filter p (x ∷ l) e y (inr i) = elim (Bool-cases (p x)) [
  | inl z ↦
      subst (λ b. In e (if b then x ∷ filter p l else filter p l)) (sym z)
        (inr (In-filter p l e y i))
  | inr z ↦
      subst (λ b. In e (if b then x ∷ filter p l else filter p l)) (sym z) (In-filter p l e y i)
]

pub All-In : (P : ℕ × Rect → Type 0) (l : List (ℕ × Rect)) (e : ℕ × Rect) → All P l → In e l → P e
All-In P (x ∷ l) e (h, hs) (inl q) = subst P (sym q) h
All-In P (x ∷ l) e (h, hs) (inr i) = All-In P l e hs i
All-In P [] e h i = absurd i

pub All-append :
    (P : ℕ × Rect → Type 0) (xs ys : List (ℕ × Rect)) → All P xs → All P ys → All P (xs ++ ys)
All-append P [] ys h k = k
All-append P (x ∷ xs) ys (h, hs) k = (h, All-append P xs ys hs k)

pub nearest-none : (key : Rect → ℕ) (l : List (ℕ × Rect)) → nearest key l ≡ none → l ≡ []
nearest-none key [] h = refl
nearest-none key (x ∷ l) h = cc
