-- ===== src/Layout/Tree.antt =====
-- `LayoutNode`, its orientation and direction types, and the panes of a tree in depth-first order.
use pyre.Prelude.{ℕ, ◌+◌, List, [], ◌∷◌, ◌++◌}
use pyre.Prelude.Machine.{u16}

-- A split holds its children with their weights, which are to sum to 100.
mutual
  pub data LayoutNode : Type 0 where
    leaf : ℕ → LayoutNode
    hsplit : Children → LayoutNode
    vsplit : Children → LayoutNode

  pub data Children : Type 0 where
    nil : Children
    cons : LayoutNode → ℕ → Children → Children

pub data Orient : Type 0 where
  vertical horizontal : Orient

pub data Dir : Type 0 where
  left right up down : Dir

unfoldable mutual
  pub all_leaves : LayoutNode → List ℕ
  all_leaves (leaf id) = id ∷ []
  all_leaves (hsplit cs) = children_leaves cs
  all_leaves (vsplit cs) = children_leaves cs

  pub children_leaves : Children → List ℕ
  children_leaves nil = []
  children_leaves (cons n w cs) = all_leaves n ++ children_leaves cs

-- The weights of the children, and the children with other weights.
abbrev pub weights : Children → List ℕ
weights nil = []
weights (cons n w cs) = w ∷ weights cs

abbrev pub with_weights : Children → List ℕ → Children
with_weights nil ws = nil
with_weights (cons n w cs) [] = cons n w cs
with_weights (cons n w cs) (v ∷ ws) = cons n v (with_weights cs ws)

-- A `u16` sum.
abbrev pub sum_u16 : List ℕ → ℕ
sum_u16 [] = 0
sum_u16 (w ∷ ws) = u16 (w + sum_u16 ws)
