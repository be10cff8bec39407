-- ===== src/Layout/Close.antt =====
-- What closing a pane does to the panes of the tree and to the focus.
use pyre.Prelude.{ℕ, zero, suc, ◌-◌, ◌≤◌, ◌<◌, ◌≡◌, refl, sym, ap, ap₂, ◌∙◌, arith}
use pyre.Prelude.{true, false, List, [], ◌∷◌, ◌++◌, Option, none, some, inl, inr, ◌⊎◌}
use pyre.Prelude.{
  ◌==◌, if◌then◌else◌, ltb, length, get_elem?, position, contains, nodup, remove, count,
}
use pyre.Prelude.{remove-append, remove_absent, length-remove, Bool-cases, is_empty}
use pyre.Prelude.{==_refl, ==_ne, append-nil, count_absent, Option-cases}
use pyre.Layout.Tree.{
  LayoutNode, Children, leaf, hsplit, vsplit, nil, cons, all_leaves, children_leaves,
}
use pyre.Layout.Edit.{collapse, remove_leaf, retain_children, refocus, close}

-- Collapsing a split keeps its panes.
collapse_hsplit-leaves : (cs : Children) → all_leaves (collapse hsplit cs) ≡ children_leaves cs
unfolding all_leaves
collapse_hsplit-leaves nil = refl
collapse_hsplit-leaves (cons n w nil) = sym (append-nil (all_leaves n))
collapse_hsplit-leaves (cons n w (cons n' w' cs)) = refl

collapse_vsplit-leaves : (cs : Children) → all_leaves (collapse vsplit cs) ≡ children_leaves cs
unfolding all_leaves
collapse_vsplit-leaves nil = refl
collapse_vsplit-leaves (cons n w nil) = sym (append-nil (all_leaves n))
collapse_vsplit-leaves (cons n w (cons n' w' cs)) = refl

-- The node to be dropped is the pane's leaf.
pub remove_leaf_gone : (t : LayoutNode) (p : ℕ) → (remove_leaf t p).1 ≡ true → t ≡ leaf p
unfolding remove_leaf
remove_leaf_gone (leaf id) p h = ground arith
remove_leaf_gone (hsplit cs) p h = cc
remove_leaf_gone (vsplit cs) p h = cc

-- Otherwise the node keeps all its panes but that one.
mutual
  unfolding remove_leaf all_leaves

  remove_leaf-leaves :
      (t : LayoutNode) (p : ℕ)
      → (remove_leaf t p).1 ≡ false
      → all_leaves (remove_leaf t p).0 ≡ remove p (all_leaves t)
  remove_leaf-leaves (leaf id) p h = ground arith
  remove_leaf-leaves (hsplit cs) p h =
      collapse_hsplit-leaves (retain_children cs p) ∙ retain_children-leaves cs p
  remove_leaf-leaves (vsplit cs) p h =
      collapse_vsplit-leaves (retain_children cs p) ∙ retain_children-leaves cs p

  retain_children-leaves :
      (cs : Children) (p : ℕ)
      → children_leaves (retain_children cs p) ≡ remove p (children_leaves cs)
  retain_children-leaves nil p = refl
  retain_children-leaves (cons n w cs) p = elim (Bool-cases (remove_leaf n p).1) [
    | inl gone ↦ rw (gone, remove_leaf_gone n p gone, ==_refl p) (retain_children-leaves cs p)
    | inr kept ↦
        rw (kept, remove-append)
          (ap₂ ◌++◌ (remove_leaf-leaves n p kept) (retain_children-leaves cs p))
  ]

pub kept-leaves :
    (t : LayoutNode) (p : ℕ)
    → 1 < length (all_leaves t)
    → all_leaves (remove_leaf t p).0 ≡ remove p (all_leaves t)
kept-leaves t p h = elim (Bool-cases (remove_leaf t p).1) [
  | inl gone ↦ absurd (
      unfold all_leaves in
      omega (arith, ap (λ s. length (all_leaves s)) (remove_leaf_gone t p gone)))
  | inr kept ↦ remove_leaf-leaves t p kept
]

abbrev pub position_of : ℕ → List ℕ → Option ℕ
position_of p l = position (λ id. id == p) l

pub position_absent : (p : ℕ) (l : List ℕ) → contains l p ≡ false → position_of p l ≡ none
position_absent p [] h = refl
position_absent p (x ∷ l) h = ground (arith, position_absent p l)

pub position_present :
    (p : ℕ) (l : List ℕ) → contains l p ≡ true → (i : ℕ) × (position_of p l ≡ some i)
position_present p [] h = absurd (ground arith)
position_present p (x ∷ l) h = elim (Bool-cases (x == p)) [
  | inl e ↦ (0, rw e)
  | inr e ↦ let (i, q) = position_present p l (ground arith) in (suc i, rw (e, q))
]

-- Before the pane's place nothing moves.
remove_before :
    (p : ℕ) (l : List ℕ) (pos i : ℕ)
    → position_of p l ≡ some pos
    → i < pos
    → get_elem? (remove p l) i ≡ get_elem? l i
remove_before p [] pos i h k = absurd (ground arith)
remove_before p (x ∷ l) zero i h k = absurd (omega arith)
remove_before p (x ∷ l) (suc q) zero h k = ground arith
remove_before p (x ∷ l) (suc q) (suc i) h k = ground (arith, remove_before p l q i)

-- The pane after the first one comes first.
remove_first :
    (p : ℕ) (l : List ℕ)
    → position_of p l ≡ some 0
    → nodup l ≡ true
    → get_elem? (remove p l) 0 ≡ get_elem? l 1
remove_first p [] h d = absurd (ground arith)
remove_first p (x ∷ l) h d = ground (arith, remove_absent p l)

pub count_of_nodup : (p : ℕ) (l : List ℕ) → nodup l ≡ true → count p l ≤ 1
count_of_nodup p [] d = omega arith
count_of_nodup p (x ∷ l) d = ground (arith, count_of_nodup p l, count_absent p l)

-- Closing a pane of a tree with several panes removes exactly that pane, and keeps the others in
-- their order.
pub leaves-close :
    (t : LayoutNode) (p : ℕ)
    → 1 < length (all_leaves t)
    → all_leaves (close t p).0 ≡ remove p (all_leaves t)
unfolding close
leaves-close t p h = elim (Bool-cases (contains (all_leaves t) p)) [
  | inl e ↦
      let (i, q) = position_present p (all_leaves t) e in
      rw (q, ==_ne (length (all_leaves t)) 1 (omega arith)) (kept-leaves t p h)
  | inr e ↦ rw (position_absent p (all_leaves t) e) (sym (remove_absent p (all_leaves t) e))
]

-- Closing a pane that is not in the tree, or the only pane, changes nothing and moves no focus.
pub close_unchanged :
    (t : LayoutNode) (p : ℕ)
    → (contains (all_leaves t) p ≡ false) ⊎ (length (all_leaves t) ≡ 1)
    → close t p ≡ (t, none)
unfolding close
close_unchanged t p (inl e) = rw (position_absent p (all_leaves t) e)
close_unchanged t p (inr e) = elim (Option-cases (position_of p (all_leaves t))) [
  | inl q ↦ rw q
  | inr (i, q) ↦ rw (q, e)
]

nonempty : (l : List ℕ) → 0 < length l → is_empty l ≡ false
nonempty [] h = absurd (omega arith)
nonempty (x ∷ l) h = refl

refocus_before :
    (l : List ℕ) (p pos : ℕ)
    → position_of p l ≡ some pos
    → nodup l ≡ true
    → 1 < length l
    → refocus (remove p l) pos ≡ (if ltb 0 pos then get_elem? l (pos - 1) else get_elem? l 1)
unfolding refocus
refocus_before l p zero h d many =
    rw (nonempty (remove p l) (omega (arith, length-remove p l, count_of_nodup p l d)))
      (remove_first p l h d)
refocus_before l p (suc pos) h d many =
    rw (nonempty (remove p l) (omega (arith, length-remove p l, count_of_nodup p l d)))
      (ground (arith, remove_before p l (suc pos) (suc pos - 1)))

-- In a tree of distinct panes the focus moves to the pane before the closed one, in depth-first
-- order, or to the one after it where it was the first.
pub focus-close :
    (t : LayoutNode) (p pos : ℕ)
    → nodup (all_leaves t) ≡ true
    → 1 < length (all_leaves t)
    → position_of p (all_leaves t) ≡ some pos
    → (close t p).1
      ≡ (if ltb 0 pos then get_elem? (all_leaves t) (pos - 1) else get_elem? (all_leaves t) 1)
unfolding close
focus-close t p pos d many h =
    rw (h, ==_ne (length (all_leaves t)) 1 (omega arith), kept-leaves t p many)
      (refocus_before (all_leaves t) p pos h d many)
