-- ===== src/Layout/WellSplit.antt =====
-- The trees that the edits build: every split has two children, whose weights sum to 100 and are
-- at least 5.
use pyre.Prelude.{ℕ, ◌+◌, ◌≤◌, ◌≡◌, refl, arith, inl, inr}
use pyre.Prelude.{true, false, some, none}
use pyre.Prelude.{◌==◌, contains, count, count-append, ==_refl, Bool-cases, append-nil}
use pyre.Layout.Tree.{
  LayoutNode, leaf, hsplit, vsplit, nil, cons, Orient, vertical, horizontal, all_leaves,
  children_leaves,
}
use pyre.Layout.Edit.{split_focused_inner, split_leaf, remove_leaf}
use pyre.Layout.Weights.{child_position, set_weight_inner}
use pyre.Layout.RootOnly.{set_weight_inner_absent}
use pyre.Layout.Close.{remove_leaf_gone}
use pyre.Layout.Resize.{clamp_bounds, rebalance_first_child, rebalance_second_child}

pub data WellSplit : LayoutNode → Type 0 where
  one : (id : ℕ) → WellSplit (leaf id)
  stacked :
      {a b : LayoutNode} {v w : ℕ}
      → WellSplit a
      → WellSplit b
      → v + w ≡ 100
      → 5 ≤ v
      → 5 ≤ w
      → WellSplit (hsplit (cons a v (cons b w nil)))
  beside :
      {a b : LayoutNode} {v w : ℕ}
      → WellSplit a
      → WellSplit b
      → v + w ≡ 100
      → 5 ≤ v
      → 5 ≤ w
      → WellSplit (vsplit (cons a v (cons b w nil)))

split_leaf-WellSplit : (o : Orient) (id n : ℕ) → WellSplit (split_leaf o id n)
split_leaf-WellSplit vertical id n =
    beside (one id) (one n) (omega arith) (omega arith) (omega arith)
split_leaf-WellSplit horizontal id n =
    stacked (one id) (one n) (omega arith) (omega arith) (omega arith)

pub split_focused_inner-WellSplit :
    {t : LayoutNode} (f n : ℕ) (o : Orient)
    → WellSplit t
    → WellSplit (split_focused_inner t f n o).0
unfolding split_focused_inner
split_focused_inner-WellSplit f n o (one id) = elim (Bool-cases (id == f)) [
  | inl e ↦ rw e (split_leaf-WellSplit o id n)
  | inr e ↦ rw e (one id)
]
split_focused_inner-WellSplit f n o (stacked {a} {b} p q s l r) =
    elim (Bool-cases (split_focused_inner a f n o).1) [
      | inl e ↦ rw e (stacked (split_focused_inner-WellSplit f n o p) q s l r)
      | inr e ↦ elim (Bool-cases (split_focused_inner b f n o).1) [
        | inl e' ↦
            rw (e, e')
              (stacked (split_focused_inner-WellSplit f n o p)
                (split_focused_inner-WellSplit f n o q) s l r)
        | inr e' ↦
            rw (e, e')
              (stacked (split_focused_inner-WellSplit f n o p)
                (split_focused_inner-WellSplit f n o q) s l r)
      ]
    ]
split_focused_inner-WellSplit f n o (beside {a} {b} p q s l r) =
    elim (Bool-cases (split_focused_inner a f n o).1) [
      | inl e ↦ rw e (beside (split_focused_inner-WellSplit f n o p) q s l r)
      | inr e ↦ elim (Bool-cases (split_focused_inner b f n o).1) [
        | inl e' ↦
            rw (e, e')
              (beside (split_focused_inner-WellSplit f n o p)
                (split_focused_inner-WellSplit f n o q) s l r)
        | inr e' ↦
            rw (e, e')
              (beside (split_focused_inner-WellSplit f n o p)
                (split_focused_inner-WellSplit f n o q) s l r)
      ]
    ]

count-pair :
    (p : ℕ) (a b : LayoutNode) (v w : ℕ)
    → count p (children_leaves (cons a v (cons b w nil)))
      ≡ count p (all_leaves a) + count p (all_leaves b)
unfolding all_leaves
count-pair p a b v w = rw append-nil (count-append p (all_leaves a) (all_leaves b))

-- Two leaves of the closed pane would make it occur twice.
both_gone :
    (a b : LayoutNode) (p : ℕ)
    → (remove_leaf a p).1 ≡ true
    → (remove_leaf b p).1 ≡ true
    → count p (all_leaves a) + count p (all_leaves b) ≡ 2
unfolding all_leaves
both_gone a b p g h = rw (remove_leaf_gone a p g, remove_leaf_gone b p h, ==_refl p) refl

-- Removing a pane that occurs once keeps the tree well split.
pub remove_leaf-WellSplit :
    {t : LayoutNode} (p : ℕ)
    → WellSplit t
    → count p (all_leaves t) ≤ 1
    → WellSplit (remove_leaf t p).0
unfolding remove_leaf all_leaves
remove_leaf-WellSplit p (one id) c = one id
remove_leaf-WellSplit p (stacked {a} {b} {v} {w} f g s l r) c =
    let few = count-pair p a b v w in
    let f' = remove_leaf-WellSplit p f (omega (arith, few)) in
    let g' = remove_leaf-WellSplit p g (omega (arith, few)) in
    elim (Bool-cases (remove_leaf a p).1) [
      | inl d ↦ elim (Bool-cases (remove_leaf b p).1) [
        | inl e ↦ absurd (omega (arith, few, both_gone a b p d e))
        | inr e ↦ rw (d, e) g'
      ]
      | inr d ↦ elim (Bool-cases (remove_leaf b p).1) [
        | inl e ↦ rw (d, e) f'
        | inr e ↦ rw (d, e) (stacked f' g' s l r)
      ]
    ]
remove_leaf-WellSplit p (beside {a} {b} {v} {w} f g s l r) c =
    let few = count-pair p a b v w in
    let f' = remove_leaf-WellSplit p f (omega (arith, few)) in
    let g' = remove_leaf-WellSplit p g (omega (arith, few)) in
    elim (Bool-cases (remove_leaf a p).1) [
      | inl d ↦ elim (Bool-cases (remove_leaf b p).1) [
        | inl e ↦ absurd (omega (arith, few, both_gone a b p d e))
        | inr e ↦ rw (d, e) g'
      ]
      | inr d ↦ elim (Bool-cases (remove_leaf b p).1) [
        | inl e ↦ rw (d, e) f'
        | inr e ↦ rw (d, e) (beside f' g' s l r)
      ]
    ]

module _ (a b : LayoutNode) (v w p : ℕ) where
  position_first :
      contains (all_leaves a) p ≡ true → child_position (cons a v (cons b w nil)) p ≡ some 0
  unfolding child_position
  position_first h = rw h

  position_second :
      contains (all_leaves a) p ≡ false
      → contains (all_leaves b) p ≡ true
      → child_position (cons a v (cons b w nil)) p ≡ some 1
  unfolding child_position
  position_second h k = rw (h, k)

  position_neither :
      contains (all_leaves a) p ≡ false
      → contains (all_leaves b) p ≡ false
      → child_position (cons a v (cons b w nil)) p ≡ none
  unfolding child_position
  position_neither h k = rw (h, k)

-- Setting a weight keeps the tree well split.
pub set_weight_inner-WellSplit :
    {t : LayoutNode} (p n : ℕ) → WellSplit t → WellSplit (set_weight_inner t p n).0
unfolding set_weight_inner
set_weight_inner-WellSplit p n (one id) = one id
set_weight_inner-WellSplit p n (stacked {a} {b} {v} {w} f g s l r) =
    elim (Bool-cases (contains (all_leaves a) p)) [
      | inl d ↦
          rw (position_first a b v w p d, rebalance_first_child v w n s l r)
            (stacked f g (omega (arith, clamp_bounds n)) (omega (arith, clamp_bounds n))
              (omega (arith, clamp_bounds n)))
      | inr d ↦ elim (Bool-cases (contains (all_leaves b) p)) [
        | inl e ↦
            rw (position_second a b v w p d e, rebalance_second_child w v n (omega arith) r l)
              (stacked f g (omega (arith, clamp_bounds n)) (omega (arith, clamp_bounds n))
                (omega (arith, clamp_bounds n)))
        | inr e ↦
            rw
              (
                position_neither a b v w p d e,
                set_weight_inner_absent a p n d,
                set_weight_inner_absent b p n e,
              )
              (stacked f g s l r)
      ]
    ]
set_weight_inner-WellSplit p n (beside {a} {b} {v} {w} f g s l r) =
    elim (Bool-cases (contains (all_leaves a) p)) [
      | inl d ↦
          rw (position_first a b v w p d, rebalance_first_child v w n s l r)
            (beside f g (omega (arith, clamp_bounds n)) (omega (arith, clamp_bounds n))
              (omega (arith, clamp_bounds n)))
      | inr d ↦ elim (Bool-cases (contains (all_leaves b) p)) [
        | inl e ↦
            rw (position_second a b v w p d e, rebalance_second_child w v n (omega arith) r l)
              (beside f g (omega (arith, clamp_bounds n)) (omega (arith, clamp_bounds n))
                (omega (arith, clamp_bounds n)))
        | inr e ↦
            rw
              (
                position_neither a b v w p d e,
                set_weight_inner_absent a p n d,
                set_weight_inner_absent b p n e,
              )
              (beside f g s l r)
      ]
    ]
