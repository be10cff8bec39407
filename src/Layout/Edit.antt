-- ===== src/Layout/Edit.antt =====
-- The edits of the tree's shape: splitting the focused leaf, and closing a pane.
use pyre.Prelude.{ℕ, ◌-◌, Bool, true, false, List, Option, none, some}
use pyre.Prelude.{ltb, ◌==◌, if◌then◌else◌, length, get_elem?, is_empty, position}
use pyre.Layout.Tree.{
  LayoutNode, Children, leaf, hsplit, vsplit, nil, cons, Orient, vertical, horizontal, all_leaves,
}

-- The two halves that take a leaf's place.
abbrev pub split_leaf : Orient → ℕ → ℕ → LayoutNode
split_leaf vertical id fresh = vsplit (cons (leaf id) 50 (cons (leaf fresh) 50 nil))
split_leaf horizontal id fresh = hsplit (cons (leaf id) 50 (cons (leaf fresh) 50 nil))

-- The flag says whether the node or a descendant was modified; the children after it are left.
unfoldable mutual
  pub split_focused_inner : LayoutNode → ℕ → ℕ → Orient → LayoutNode × Bool
  split_focused_inner (leaf id) focused new_pane orient =
      if id == focused then (split_leaf orient id new_pane, true) else (leaf id, false)
  split_focused_inner (hsplit cs) focused new_pane orient =
      let (cs', done) = split_children cs focused new_pane orient in (hsplit cs', done)
  split_focused_inner (vsplit cs) focused new_pane orient =
      let (cs', done) = split_children cs focused new_pane orient in (vsplit cs', done)

  pub split_children : Children → ℕ → ℕ → Orient → Children × Bool
  split_children nil focused new_pane orient = (nil, false)
  split_children (cons n w cs) focused new_pane orient =
      let (n', done) = split_focused_inner n focused new_pane orient in
      let (cs', later) = split_children cs focused new_pane orient in
      if done then (cons n' w cs, true) else (cons n' w cs', later)

unfoldable pub split_focused : LayoutNode → ℕ → ℕ → Orient → LayoutNode
split_focused t focused new_pane orient = (split_focused_inner t focused new_pane orient).0

-- A split that is left with one child is replaced by it.
abbrev pub collapse : (Children → LayoutNode) → Children → LayoutNode
collapse split nil = split nil
collapse split (cons n w nil) = n
collapse split (cons n w (cons n' w' cs)) = split (cons n w (cons n' w' cs))

-- The flag says that the caller's slot is to be dropped: the node is the leaf itself.
unfoldable mutual
  pub remove_leaf : LayoutNode → ℕ → LayoutNode × Bool
  remove_leaf (leaf id) pane = (leaf id, id == pane)
  remove_leaf (hsplit cs) pane = (collapse hsplit (retain_children cs pane), false)
  remove_leaf (vsplit cs) pane = (collapse vsplit (retain_children cs pane), false)

  pub retain_children : Children → ℕ → Children
  retain_children nil pane = nil
  retain_children (cons n w cs) pane =
      let (n', gone) = remove_leaf n pane in
      let rest = retain_children cs pane in if gone then rest else cons n' w rest

-- What stands after `remove_leaf`: the focus moves to the pane before the removed one.
unfoldable pub refocus : List ℕ → ℕ → Option ℕ
refocus remaining pos =
    if is_empty remaining then none else get_elem? remaining (if ltb 0 pos then pos - 1 else 0)

-- `close` after the pane's position among the leaves is known: the only leaf stays.
unfoldable pub close_at : LayoutNode → ℕ → Option ℕ → LayoutNode × Option ℕ
close_at t pane none = (t, none)
close_at t pane (some pos) =
    if length (all_leaves t) == 1
    then (t, none)
    else let t' = (remove_leaf t pane).0 in (t', refocus (all_leaves t') pos)

-- The new tree, and the pane that is to receive focus.
unfoldable pub close : LayoutNode → ℕ → LayoutNode × Option ℕ
unfolding close_at
close t pane = close_at t pane (position (λ id. id == pane) (all_leaves t))
