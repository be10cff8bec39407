-- ===== src/Layout/Weights.antt =====
-- Setting the weight of a pane's part of a split. The `i32` arithmetic of the rebalancing wraps.
use mathlib.Core.Option
use pyre.Prelude.{ℕ, zero, suc, ◌+◌, max, Bool, true, false, List, [], ◌∷◌, Option, none, some}
use pyre.Prelude.{◌==◌, if◌then◌else◌, get_or, set, length, contains}
use pyre.Prelude.Int.{ℤ, pos, ◌+ℤ◌, ◌-ℤ◌, ◌*ℤ◌, div_trunc, pos_part, ltb_ℤ}
use pyre.Prelude.Machine.{i32, clamp, clamp_i32}
use pyre.Layout.Tree.{
  LayoutNode, Children, leaf, hsplit, vsplit, nil, cons, all_leaves, weights, with_weights, sum_u16,
}

-- The sum of the weights but that at `idx`; `i` is the first element's index.
abbrev pub siblings_sum : ℕ → ℕ → List ℕ → ℕ
siblings_sum i idx [] = 0
siblings_sum i idx (w ∷ ws) = (if i == idx then 0 else w) + siblings_sum (suc i) idx ws

-- The loop over the siblings: each takes its proportional part of `-delta`, and what rounding and
-- clamping leave over is kept.
unfoldable pub distribute : ℕ → ℕ → ℤ → ℕ → ℤ → List ℕ → List ℕ × ℤ
distribute i idx neg_delta siblings_total leftover [] = ([], leftover)
distribute i idx neg_delta siblings_total leftover (w ∷ ws) =
    let part = div_trunc (i32 (pos w *ℤ neg_delta)) siblings_total in
    let adjusted = clamp_i32 5 95 (i32 (pos w +ℤ part)) in
    let left = if i == idx then leftover else i32 (leftover -ℤ (pos adjusted -ℤ pos w)) in
    let (ws', last) = distribute (suc i) idx neg_delta siblings_total left ws in
    ((if i == idx then w else adjusted) ∷ ws', last)

-- The last index below `n` that is not `idx`.
abbrev pub last_sibling : ℕ → ℕ → Option ℕ
last_sibling zero idx = none
last_sibling (suc n) idx = if n == idx then last_sibling n idx else some n

-- The last sibling takes the leftover.
unfoldable pub give_leftover : ℕ → List ℕ × ℤ → List ℕ
give_leftover idx (ws, leftover) = elim (last_sibling (length ws) idx) [
  | none ↦ ws
  | some j ↦ set ws j (clamp_i32 5 95 (i32 (pos (get_or ws j 0) +ℤ leftover)))
]

-- The final pass: the target takes what the sum lacks of 100.
unfoldable pub normalise : ℕ → List ℕ → List ℕ
normalise idx ws =
    let total = sum_u16 ws in
    if total == 100
    then ws
    else set ws idx (clamp_i32 5 95 (i32 (pos (get_or ws idx 0) +ℤ (pos 100 -ℤ pos total))))

unfoldable pub spread : ℕ → ℤ → List ℕ → List ℕ
spread idx neg_delta ws =
    let siblings_total = i32 (pos (siblings_sum 0 idx ws)) in
    if ltb_ℤ (pos 0) siblings_total
    then give_leftover idx
        (distribute 0 idx neg_delta (max (pos_part siblings_total) 1) neg_delta ws)
    else ws

-- The weights after that at `idx` was set.
unfoldable pub rebalance : List ℕ → ℕ → ℕ → List ℕ
rebalance ws idx new_weight =
    let clamped = clamp 5 95 new_weight in
    let old = get_or ws idx 0 in
    if clamped == old
    then ws
    else normalise idx (spread idx (pos old -ℤ pos clamped) (set ws idx clamped))

-- The first child that has the pane among its leaves.
unfoldable pub child_position : Children → ℕ → Option ℕ
child_position nil pane = none
child_position (cons n w cs) pane =
    if contains (all_leaves n) pane then some 0 else Option.map suc (child_position cs pane)

-- A split whose direct child holds the pane is rebalanced; otherwise the recursion's result stands.
abbrev pub reweigh :
    (Children → LayoutNode) → Children → ℕ → Option ℕ → Children × Bool → LayoutNode × Bool
reweigh split cs new_weight (some idx) (cs', done) =
    (split (with_weights cs (rebalance (weights cs) idx new_weight)), true)
reweigh split cs new_weight none (cs', done) = (split cs', done)

unfoldable mutual
  pub set_weight_inner : LayoutNode → ℕ → ℕ → LayoutNode × Bool
  set_weight_inner (leaf id) pane new_weight = (leaf id, false)
  set_weight_inner (hsplit cs) pane new_weight =
      reweigh hsplit cs new_weight (child_position cs pane) (set_weight_children cs pane new_weight)
  set_weight_inner (vsplit cs) pane new_weight =
      reweigh vsplit cs new_weight (child_position cs pane) (set_weight_children cs pane new_weight)

  pub set_weight_children : Children → ℕ → ℕ → Children × Bool
  set_weight_children nil pane new_weight = (nil, false)
  set_weight_children (cons n w cs) pane new_weight =
      let (n', done) = set_weight_inner n pane new_weight in
      let (cs', later) = set_weight_children cs pane new_weight in
      if done then (cons n' w cs, true) else (cons n' w cs', later)

unfoldable pub set_weight : LayoutNode → ℕ → ℕ → LayoutNode
set_weight t pane weight = (set_weight_inner t pane weight).0
