-- ===== src/Layout/RootOnly.antt =====
-- `set_weight` reaches no further than the root: the position that it looks for is that of the
-- first child with the pane anywhere among its leaves, so its recursion finds nothing to change.

use pyre.Prelude.{ℕ, ◌≡◌, refl, ap, ◌∙◌, arith}
use pyre.Prelude.{Bool, false, List, [], ◌∷◌, ◌++◌, some, none, Option}
use pyre.Prelude.{contains, contains-append}
use pyre.Layout.Tree.{
  LayoutNode, Children, leaf, hsplit, vsplit, nil, cons, all_leaves, children_leaves, with_weights,
  weights,
}
use pyre.Layout.Weights.{
  child_position, set_weight_inner, set_weight_children, set_weight, reweigh, rebalance,
}

child_position-none :
    (cs : Children) (p : ℕ) → contains (children_leaves cs) p ≡ false → child_position cs p ≡ none
unfolding child_position all_leaves
child_position-none nil p h = refl
child_position-none (cons n w cs) p h =
    let both = contains-append (all_leaves n) (children_leaves cs) p in
    let here : contains (all_leaves n) p ≡ false = ground (arith, both) in
    rw here (rw (child_position-none cs p (ground (arith, both))))

child_position_absent :
    (cs : Children) (p : ℕ) → child_position cs p ≡ none → contains (children_leaves cs) p ≡ false
unfolding child_position all_leaves
child_position_absent nil p h = refl
child_position_absent (cons n w cs) p h =
    rw contains-append (ground (arith, child_position_absent cs p))

mutual
  unfolding set_weight_inner all_leaves

  -- A pane that is not in the tree: nothing happens.
  pub set_weight_inner_absent :
      (t : LayoutNode) (p n : ℕ)
      → contains (all_leaves t) p ≡ false
      → set_weight_inner t p n ≡ (t, false)
  set_weight_inner_absent (leaf id) p n h = refl
  set_weight_inner_absent (hsplit cs) p n h =
      rw (child_position-none cs p h, set_weight_children_absent cs p n h)
  set_weight_inner_absent (vsplit cs) p n h =
      rw (child_position-none cs p h, set_weight_children_absent cs p n h)

  set_weight_children_absent :
      (cs : Children) (p n : ℕ)
      → contains (children_leaves cs) p ≡ false
      → set_weight_children cs p n ≡ (cs, false)
  set_weight_children_absent nil p n h = refl
  set_weight_children_absent (cons c w cs) p n h =
      let both = contains-append (all_leaves c) (children_leaves cs) p in
      rw (
        set_weight_inner_absent c p n (ground (arith, both)),
        set_weight_children_absent cs p n (ground (arith, both)),
      )

-- The subtrees right below the root.
abbrev pub subtrees_of : Children → List LayoutNode
subtrees_of nil = []
subtrees_of (cons n w cs) = n ∷ subtrees_of cs

abbrev pub subtrees : LayoutNode → List LayoutNode
subtrees (leaf id) = []
subtrees (hsplit cs) = subtrees_of cs
subtrees (vsplit cs) = subtrees_of cs

subtrees-with_weights :
    (cs : Children) (ws : List ℕ) → subtrees_of (with_weights cs ws) ≡ subtrees_of cs
subtrees-with_weights nil ws = refl
subtrees-with_weights (cons n w cs) [] = refl
subtrees-with_weights (cons n w cs) (v ∷ ws) = ap (λ l. n ∷ l) (subtrees-with_weights cs ws)

leaves-with_weights :
    (cs : Children) (ws : List ℕ) → children_leaves (with_weights cs ws) ≡ children_leaves cs
unfolding all_leaves
leaves-with_weights nil ws = refl
leaves-with_weights (cons n w cs) [] = refl
leaves-with_weights (cons n w cs) (v ∷ ws) = ap (λ l. all_leaves n ++ l) (leaves-with_weights cs ws)

-- What a new set of weights leaves alone, `reweigh` leaves alone.
reweigh-keeps {ℓ} :
    {X : Type ℓ} (view : LayoutNode → X) (view_of : Children → X) (split : Children → LayoutNode)
    → ((cs : Children) → view (split cs) ≡ view_of cs)
    → ((cs : Children) (ws : List ℕ) → view_of (with_weights cs ws) ≡ view_of cs)
    → (cs : Children) (n : ℕ) (o : Option ℕ) (r : Children × Bool) → (o ≡ none → r ≡ (cs, false))
    → view (reweigh split cs n o r).0 ≡ view_of cs
reweigh-keeps view view_of split opens same cs n (some i) r h =
    opens (with_weights cs (rebalance (weights cs) i n)) ∙ same cs (rebalance (weights cs) i n)
reweigh-keeps view view_of split opens same cs n none r h =
    opens r.0 ∙ ap (λ (q : Children × Bool). view_of q.0) (h refl)

set_weight_children_idle :
    (cs : Children) (p n : ℕ)
    → child_position cs p ≡ none
    → set_weight_children cs p n ≡ (cs, false)
set_weight_children_idle cs p n e = set_weight_children_absent cs p n (child_position_absent cs p e)

-- Whatever the pane and the weight, the subtrees below the root stay exactly as they were: only
-- weights of the root's own children can change, however deep the pane lies.
pub subtrees-set_weight :
    (t : LayoutNode) (pane weight : ℕ) → subtrees (set_weight t pane weight) ≡ subtrees t
unfolding set_weight set_weight_inner
subtrees-set_weight (leaf id) p n = refl
subtrees-set_weight (hsplit cs) p n =
    reweigh-keeps subtrees subtrees_of hsplit (λ _. refl) subtrees-with_weights cs n
      (child_position cs p) (set_weight_children cs p n) (set_weight_children_idle cs p n)
subtrees-set_weight (vsplit cs) p n =
    reweigh-keeps subtrees subtrees_of vsplit (λ _. refl) subtrees-with_weights cs n
      (child_position cs p) (set_weight_children cs p n) (set_weight_children_idle cs p n)

-- No pane comes, goes or moves when a weight is set.
pub leaves-set_weight :
    (t : LayoutNode) (pane weight : ℕ) → all_leaves (set_weight t pane weight) ≡ all_leaves t
unfolding set_weight set_weight_inner all_leaves
leaves-set_weight (leaf id) p n = refl
leaves-set_weight (hsplit cs) p n =
    reweigh-keeps all_leaves children_leaves hsplit (λ _. refl) leaves-with_weights cs n
      (child_position cs p) (set_weight_children cs p n) (set_weight_children_idle cs p n)
leaves-set_weight (vsplit cs) p n =
    reweigh-keeps all_leaves children_leaves vsplit (λ _. refl) leaves-with_weights cs n
      (child_position cs p) (set_weight_children cs p n) (set_weight_children_idle cs p n)
