-- ===== src/Tests/LayoutRuns.antt =====
-- The unit tests of crates/pyre-proto/src/layout.rs, and the theorems at small trees.
use pyre.Prelude.{◌≤◌, ◌≡◌, refl, true, [], ◌∷◌, some, none, if◌then◌else◌}
use pyre.Prelude.{arith, nodup, subst}
use pyre.Prelude.Int.{◌+ℤ◌, ◌-ℤ◌, ◌*ℤ◌, div_trunc}
use pyre.Prelude.Machine.{i32}
use pyre.Layout.Tree.{
  LayoutNode, leaf, hsplit, vsplit, nil, cons, vertical, horizontal, right, down, all_leaves,
}
use pyre.Layout.Edit.{split_focused, split_focused_inner, close, remove_leaf, refocus}
use pyre.Layout.Geometry.{
  Rect, contains_pt, leaves, rect_for, leaves_inner, unit_viewport, focus_dir,
}
use pyre.Layout.Weights.{
  set_weight, set_weight_inner, child_position, rebalance, spread, distribute, give_leftover,
  normalise,
}
use pyre.Layout.Close.{leaves-close, close_unchanged, focus-close}
use pyre.Layout.WellSplit.{WellSplit}
use pyre.Layout.Reach.{Reach, first, split, Reach-WellSplit}
use pyre.Layout.Area.{hits, leaves_disjoint}
use pyre.Layout.Focus.{In, rect_for_total}
use pyre.Layout.Direction.{Answers, focus_dir_lem}
use mathlib.Core.Logic.{inl}
use pyre.Layout.RootOnly.{subtrees, subtrees-set_weight}
use pyre.Layout.Split.{leaves-split_focused}

-- Pane 1 beside a stack of panes 2 and 3.
abbrev three : LayoutNode
three = vsplit (cons (leaf 1) 50 (cons (hsplit (cons (leaf 2) 50 (cons (leaf 3) 50 nil))) 50 nil))

built : split_focused (split_focused (leaf 1) 1 2 vertical) 2 3 horizontal ≡ three
unfolding split_focused split_focused_inner
built = refl

close_leaf_returns_sibling :
    close (vsplit (cons (leaf 1) 50 (cons (leaf 2) 50 nil))) 2 ≡ (leaf 1, some 1)
unfolding close remove_leaf all_leaves refocus
close_leaf_returns_sibling = refl

focus_dir_right : (focus_dir three 1 right ≡ some 2) × (focus_dir three 2 right ≡ none)
unfolding focus_dir leaves_inner
focus_dir_right = (refl, refl)

focus_dir_down : focus_dir three 2 down ≡ some 3
unfolding focus_dir leaves_inner
focus_dir_down = refl

-- A pane below the root's child: the root's weights change, the inner ones do not.
set_weight_nested :
    set_weight three 3 70
    ≡ vsplit (cons (leaf 1) 30 (cons (hsplit (cons (leaf 2) 50 (cons (leaf 3) 50 nil))) 70 nil))
unfolding set_weight set_weight_inner child_position rebalance spread distribute give_leftover
    normalise all_leaves i32 ◌+ℤ◌ ◌-ℤ◌ ◌*ℤ◌ div_trunc
set_weight_nested = refl

-- Three leaves at 90, 5 and 5: no sibling can give anything, so the target stays at 90.
rebalance_floor : rebalance (90 ∷ 5 ∷ 5 ∷ []) 0 95 ≡ 90 ∷ 5 ∷ 5 ∷ []
unfolding rebalance spread distribute give_leftover normalise i32 ◌+ℤ◌ ◌-ℤ◌ ◌*ℤ◌ div_trunc
rebalance_floor = refl

reached : Reach (split_focused (leaf 1) 1 2 vertical)
unfolding all_leaves
reached = split 1 2 vertical (first 1) refl

Reach-WellSplit_example :
    WellSplit (split_focused (leaf 1) 1 2 vertical)
    × (nodup (all_leaves (split_focused (leaf 1) 1 2 vertical)) ≡ true)
Reach-WellSplit_example = Reach-WellSplit reached

abbrev screen : Rect
screen = record { x = 0; y = 0; w = 1920; h = 1080 }

leaves_disjoint_example :
    hits 959 10 (leaves (split_focused (leaf 1) 1 2 vertical) screen)
    ≤ (if contains_pt screen 959 10 then 1 else 0)
leaves_disjoint_example = leaves_disjoint screen 959 10 reached (omega arith)

leaves-close_example : all_leaves (close three 2).0 ≡ 1 ∷ 3 ∷ []
unfolding all_leaves
leaves-close_example = leaves-close three 2 (omega arith)

focus-close_example : (close three 2).1 ≡ some 1
unfolding all_leaves
focus-close_example = focus-close three 2 1 refl (omega arith) refl

close_unchanged_example : close three 9 ≡ (three, none)
unfolding all_leaves
close_unchanged_example = close_unchanged three 9 (inl refl)

rect_for_total_example :
    (r : Rect) × (rect_for three screen 3 ≡ some r) × In (3, r) (leaves_inner three screen)
unfolding all_leaves
rect_for_total_example = rect_for_total three screen 3 refl

three_reached : Reach three
unfolding all_leaves split_focused split_focused_inner
three_reached = subst Reach built (split 2 3 horizontal reached refl)

focus_dir_lem_example :
    (cur : Rect) × (rect_for three unit_viewport 2 ≡ some cur)
    × Answers three 2 down cur (focus_dir three 2 down)
unfolding all_leaves
focus_dir_lem_example = focus_dir_lem 2 down three_reached refl

subtrees-set_weight_example : subtrees (set_weight three 3 70) ≡ subtrees three
subtrees-set_weight_example = subtrees-set_weight three 3 70

leaves-split_focused_example : all_leaves (split_focused three 2 7 vertical) ≡ 1 ∷ 2 ∷ 7 ∷ 3 ∷ []
unfolding all_leaves
leaves-split_focused_example = leaves-split_focused three 2 7 vertical
