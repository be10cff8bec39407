-- ===== src/Layout/Split.antt =====
-- What splitting the focused pane does to the panes of the tree.
use pyre.Prelude.{ℕ, ◌≡◌, refl, ap, ap₂, ◌∙◌, arith, inl, inr}
use pyre.Prelude.{false, List, [], ◌∷◌, ◌++◌}
use pyre.Prelude.{◌==◌, if◌then◌else◌, contains, contains-append, Bool-cases}
use pyre.Layout.Tree.{
  LayoutNode, Children, leaf, hsplit, vsplit, nil, cons, Orient, vertical, horizontal, all_leaves,
  children_leaves,
}
use pyre.Layout.Edit.{split_focused_inner, split_children, split_focused}

-- The list with `n` right behind the first `f`.
abbrev pub insert_after : ℕ → ℕ → List ℕ → List ℕ
insert_after f n [] = []
insert_after f n (x ∷ l) = if x == f then x ∷ n ∷ l else x ∷ insert_after f n l

pub insert_after-append :
    (f n : ℕ) (xs ys : List ℕ)
    → insert_after f n (xs ++ ys)
      ≡ (if contains xs f then insert_after f n xs ++ ys else xs ++ insert_after f n ys)
insert_after-append f n [] ys = refl
insert_after-append f n (x ∷ xs) ys = ground (arith, insert_after-append f n xs ys)

pub insert_after_absent : (f n : ℕ) (l : List ℕ) → contains l f ≡ false → insert_after f n l ≡ l
insert_after_absent f n [] h = refl
insert_after_absent f n (x ∷ l) h = ground (arith, insert_after_absent f n l)

mutual
  unfolding split_focused_inner all_leaves

  -- The flag tells whether the focused pane is there.
  split_focused_inner-done :
      (t : LayoutNode) (f n : ℕ) (o : Orient)
      → (split_focused_inner t f n o).1 ≡ contains (all_leaves t) f
  split_focused_inner-done (leaf id) f n o = ground arith
  split_focused_inner-done (hsplit cs) f n o = split_children-done cs f n o
  split_focused_inner-done (vsplit cs) f n o = split_children-done cs f n o

  split_children-done :
      (cs : Children) (f n : ℕ) (o : Orient)
      → (split_children cs f n o).1 ≡ contains (children_leaves cs) f
  split_children-done nil f n o = refl
  split_children-done (cons c w cs) f n o =
      rw (contains-append, ← split_focused_inner-done c f n o, ← split_children-done cs f n o)
        (ground arith)

mutual
  unfolding split_focused_inner all_leaves

  split_focused_inner-leaves :
      (t : LayoutNode) (f n : ℕ) (o : Orient)
      → all_leaves (split_focused_inner t f n o).0 ≡ insert_after f n (all_leaves t)
  split_focused_inner-leaves (leaf id) f n vertical = ground arith
  split_focused_inner-leaves (leaf id) f n horizontal = ground arith
  split_focused_inner-leaves (hsplit cs) f n o = split_children-leaves cs f n o
  split_focused_inner-leaves (vsplit cs) f n o = split_children-leaves cs f n o

  split_children-leaves :
      (cs : Children) (f n : ℕ) (o : Orient)
      → children_leaves (split_children cs f n o).0 ≡ insert_after f n (children_leaves cs)
  split_children-leaves nil f n o = refl
  split_children-leaves (cons c w cs) f n o = elim (Bool-cases (contains (all_leaves c) f)) [
    | inl e ↦
        rw (insert_after-append, e, split_focused_inner-done c f n o ∙ e)
          (ap (λ l. l ++ children_leaves cs) (split_focused_inner-leaves c f n o))
    | inr e ↦
        rw (insert_after-append, e, split_focused_inner-done c f n o ∙ e)
          (ap₂ ◌++◌ (split_focused_inner-leaves c f n o ∙ insert_after_absent f n (all_leaves c) e)
            (split_children-leaves cs f n o))
  ]

-- Splitting puts the new pane right behind the first occurrence of the focused one in depth-first
-- order, and keeps the other panes in their order; where the focused pane is not in the tree the
-- panes stay as they were.
pub leaves-split_focused :
    (t : LayoutNode) (focused new_pane : ℕ) (orient : Orient)
    → all_leaves (split_focused t focused new_pane orient)
      ≡ insert_after focused new_pane (all_leaves t)
unfolding split_focused
leaves-split_focused t f n o = split_focused_inner-leaves t f n o
