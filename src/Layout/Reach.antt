-- ===== src/Layout/Reach.antt =====
-- The layouts that the daemon can hold: a first pane, then any sequence of splits with fresh
-- panes, closings and new weights.
use pyre.Prelude.{ℕ, ◌≤◌, ◌≡◌, ◌≢◌, refl, arith, inl, inr}
use pyre.Prelude.{true, false, List, [], ◌∷◌}
use pyre.Prelude.{◌==◌, contains, nodup, remove, length, Bool-cases}
use native.Mathlib.Decide.{dec_lt}
use pyre.Layout.Tree.{LayoutNode, leaf, Orient, all_leaves}
use pyre.Layout.Edit.{split_focused, remove_leaf, close}
use pyre.Layout.Weights.{set_weight}
use pyre.Layout.Split.{insert_after, leaves-split_focused}
use pyre.Layout.Close.{
  leaves-close, close_unchanged, count_of_nodup, position_present, position_absent,
}
use pyre.Layout.RootOnly.{leaves-set_weight}
use pyre.Layout.WellSplit.{
  WellSplit, one, split_focused_inner-WellSplit, remove_leaf-WellSplit, set_weight_inner-WellSplit,
}

pub data Reach : LayoutNode → Type 0 where
  first : (id : ℕ) → Reach (leaf id)
  split :
      {t : LayoutNode} (focused new_pane : ℕ) (orient : Orient)
      → Reach t
      → contains (all_leaves t) new_pane ≡ false
      → Reach (split_focused t focused new_pane orient)
  closed : {t : LayoutNode} (pane : ℕ) → Reach t → Reach (close t pane).0
  resized : {t : LayoutNode} (pane weight : ℕ) → Reach t → Reach (set_weight t pane weight)

contains-insert_after :
    (f n x : ℕ) (l : List ℕ) → n ≢ x → contains (insert_after f n l) x ≡ contains l x
contains-insert_after f n x [] h = refl
contains-insert_after f n x (y ∷ l) h = ground (arith, contains-insert_after f n x l h)

nodup-insert_after :
    (f n : ℕ) (l : List ℕ)
    → contains l n ≡ false
    → nodup l ≡ true
    → nodup (insert_after f n l) ≡ true
nodup-insert_after f n [] h d = refl
nodup-insert_after f n (x ∷ l) h d =
    ground (arith, nodup-insert_after f n l, contains-insert_after f n x l)

contains-remove : (p x : ℕ) (l : List ℕ) → contains l x ≡ false → contains (remove p l) x ≡ false
contains-remove p x [] h = refl
contains-remove p x (y ∷ l) h = ground (arith, contains-remove p x l)

nodup-remove : (p : ℕ) (l : List ℕ) → nodup l ≡ true → nodup (remove p l) ≡ true
nodup-remove p [] d = refl
nodup-remove p (x ∷ l) d = ground (arith, nodup-remove p l, contains-remove p x l)

-- `close` either leaves the tree or removes the leaf.
close_cases :
    (P : LayoutNode → Type 0) (t : LayoutNode) (p : ℕ)
    → P t
    → P (remove_leaf t p).0
    → P (close t p).0
unfolding close
close_cases P t p same gone = elim (Bool-cases (contains (all_leaves t) p)) [
  | inr e ↦ rw (position_absent p (all_leaves t) e) same
  | inl e ↦
      let (i, q) = position_present p (all_leaves t) e in
      rw q
        (elim (Bool-cases (length (all_leaves t) == 1)) [ inl o ↦ rw o same | inr o ↦ rw o gone ])
]

nodup-close :
    (t : LayoutNode) (p : ℕ) → nodup (all_leaves t) ≡ true → nodup (all_leaves (close t p).0) ≡ true
nodup-close t p d = elim (dec_lt 1 (length (all_leaves t))) [
  | yes h ↦ rw (leaves-close t p h) (nodup-remove p (all_leaves t) d)
  | no h ↦ elim (Bool-cases (contains (all_leaves t) p)) [
    | inr e ↦ rw (close_unchanged t p (inl e)) d
    | inl e ↦ rw (close_unchanged t p (inr (only (all_leaves t) e (omega arith)))) d
  ]
]
  where
    only : (l : List ℕ) → contains l p ≡ true → length l ≤ 1 → length l ≡ 1
    only [] e h = absurd (ground arith)
    only (x ∷ l) e h = omega arith

-- In every layout that can be reached, each split has exactly two children, their weights sum to
-- 100 and lie between 5 and 95, and no pane occurs twice.
pub Reach-WellSplit : {t : LayoutNode} → Reach t → WellSplit t × (nodup (all_leaves t) ≡ true)
unfolding all_leaves split_focused set_weight
Reach-WellSplit (first id) = (one id, refl)
Reach-WellSplit (split {t} f n o r fresh) =
    let (w, d) = Reach-WellSplit r in
    (
      split_focused_inner-WellSplit f n o w,
      rw (leaves-split_focused t f n o) (nodup-insert_after f n (all_leaves t) fresh d),
    )
Reach-WellSplit (closed {t} p r) =
    let (w, d) = Reach-WellSplit r in
    (
      close_cases WellSplit t p w (remove_leaf-WellSplit p w (count_of_nodup p (all_leaves t) d)),
      nodup-close t p d,
    )
Reach-WellSplit (resized {t} p n r) =
    let (w, d) = Reach-WellSplit r in
    (set_weight_inner-WellSplit p n w, rw (leaves-set_weight t p n) d)
