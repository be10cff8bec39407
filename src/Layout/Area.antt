-- ===== src/Layout/Area.antt =====
-- Where the leaves of a well-split tree lie: no point of the screen belongs to two of them, and
-- none lies outside the viewport.
use native.Mathlib.Nat.{mul-add}
use pyre.Prelude.{ℕ, ◌+◌, ◌*◌, ◌^◌, max, ◌≤◌, ◌<◌, ◌≡◌, sym, ap, ◌∙◌, arith}
use pyre.Prelude.{List, [], ◌∷◌, ◌++◌, length, filter, filter-append}
use pyre.Prelude.{length-append, append-nil, if◌then◌else◌}
use pyre.Prelude.Machine.{u32}
use pyre.Layout.Tree.{LayoutNode, leaf, hsplit, vsplit, nil, cons, sum_u16}
use pyre.Layout.Geometry.{Rect, contains_pt, leaves_inner, leaves, share}
use pyre.Layout.WellSplit.{WellSplit, one, stacked, beside}
use pyre.Layout.Reach.{Reach, Reach-WellSplit}

-- The viewport's edges are `u32` numbers.
pub record Fits (vp : Rect) : Type 0 where
  pub right : vp.x + vp.w < 2 ^ 32
  pub bottom : vp.y + vp.h < 2 ^ 32

-- How many of the leaves hold the point.
abbrev pub hits : ℕ → ℕ → List (ℕ × Rect) → ℕ
hits px py ls = length (filter (λ e. contains_pt e.1 px py) ls)

abbrev inside : Rect → ℕ → ℕ → ℕ
inside r px py = if contains_pt r px py then 1 else 0

hits-append :
    (px py : ℕ) (xs ys : List (ℕ × Rect)) → hits px py (xs ++ ys) ≡ hits px py xs + hits px py ys
hits-append px py xs ys = rw filter-append (
    length-append (filter (λ e. contains_pt e.1 px py) xs) (filter (λ e. contains_pt e.1 px py) ys))

total_exact : (v w : ℕ) → v + w ≡ 100 → max (sum_u16 (v ∷ w ∷ [])) 1 ≡ 100
total_exact v w h = omega arith

-- Two shares of an extent do not exceed it.
module _ (extent v w : ℕ) (whole : v + w ≡ 100) (small : extent < 2 ^ 32) where
  shares_product : extent * v + extent * w ≡ extent * 100
  shares_product = sym (mul-add extent v w) ∙ ap (λ k. extent * k) whole

  shares-le : share extent v 100 + share extent w 100 ≤ extent
  shares-le = omega (arith, shares_product)

-- Two rectangles that divide `vp` hold a point of it between them, once at most.
two_rows :
    (vp : Rect) (h k px py : ℕ)
    → Fits vp
    → h + k ≤ vp.h
    → inside (record { x = vp.x; y = vp.y; w = vp.w; h = h }) px py
        + inside (record { x = vp.x; y = u32 (vp.y + h); w = vp.w; h = k }) px py
      ≤ inside vp px py
unfolding contains_pt
two_rows vp h k px py f s = ground arith

two_columns :
    (vp : Rect) (h k px py : ℕ)
    → Fits vp
    → h + k ≤ vp.w
    → inside (record { x = vp.x; y = vp.y; w = h; h = vp.h }) px py
        + inside (record { x = u32 (vp.x + h); y = vp.y; w = k; h = vp.h }) px py
      ≤ inside vp px py
unfolding contains_pt
two_columns vp h k px py f s = ground arith

-- The rectangles of a split in two, and of the leaves below them.
module _ (vp : Rect) (a b : LayoutNode) (v w : ℕ) (whole : v + w ≡ 100) where
  pub upper : Rect
  upper = record { x = vp.x; y = vp.y; w = vp.w; h = share vp.h v 100 }

  pub lower : Rect
  lower = record { x = vp.x; y = u32 (vp.y + share vp.h v 100); w = vp.w; h = share vp.h w 100 }

  pub near : Rect
  near = record { x = vp.x; y = vp.y; w = share vp.w v 100; h = vp.h }

  pub far : Rect
  far = record { x = u32 (vp.x + share vp.w v 100); y = vp.y; w = share vp.w w 100; h = vp.h }

  pub leaves_stacked :
      leaves_inner (hsplit (cons a v (cons b w nil))) vp
      ≡ leaves_inner a upper ++ leaves_inner b lower
  unfolding leaves_inner upper lower
  leaves_stacked = rw (total_exact v w whole, append-nil)

  pub leaves_beside :
      leaves_inner (vsplit (cons a v (cons b w nil))) vp ≡ leaves_inner a near ++ leaves_inner b far
  unfolding leaves_inner near far
  leaves_beside = rw (total_exact v w whole, append-nil)

  pub upper-Fits : Fits vp → Fits upper × Fits lower
  unfolding upper lower
  upper-Fits f = let fit = shares-le vp.h v w whole (omega arith) in omega (arith, fit)

  pub near-Fits : Fits vp → Fits near × Fits far
  unfolding near far
  near-Fits f = let fit = shares-le vp.w v w whole (omega arith) in omega (arith, fit)

  inside_rows : (px py : ℕ) → Fits vp → inside upper px py + inside lower px py ≤ inside vp px py
  unfolding upper lower
  inside_rows px py f =
      two_rows vp (share vp.h v 100) (share vp.h w 100) px py f
        (shares-le vp.h v w whole (omega arith))

  inside_columns : (px py : ℕ) → Fits vp → inside near px py + inside far px py ≤ inside vp px py
  unfolding near far
  inside_columns px py f =
      two_columns vp (share vp.w v 100) (share vp.w w 100) px py f
        (shares-le vp.w v w whole (omega arith))

leaves_one : (vp : Rect) (id px py : ℕ) → hits px py (leaves_inner (leaf id) vp) ≤ inside vp px py
unfolding leaves_inner
leaves_one vp id px py = ground arith

hits-le-inside :
    {t : LayoutNode} (vp : Rect) (px py : ℕ)
    → WellSplit t
    → Fits vp
    → hits px py (leaves_inner t vp) ≤ inside vp px py
hits-le-inside vp px py (one id) f = leaves_one vp id px py
hits-le-inside vp px py (stacked {a} {b} {v} {w} p q s l r) f =
    let (f₁, f₂) = upper-Fits vp a b v w s f in
    let u = upper vp a b v w s in
    let d = lower vp a b v w s in
    rw (leaves_stacked vp a b v w s, hits-append px py)
      (omega (
        arith,
        hits-le-inside u px py p f₁,
        hits-le-inside d px py q f₂,
        inside_rows vp a b v w s px py f,
      ))
hits-le-inside vp px py (beside {a} {b} {v} {w} p q s l r) f =
    let (f₁, f₂) = near-Fits vp a b v w s f in
    let u = near vp a b v w s in
    let d = far vp a b v w s in
    rw (leaves_beside vp a b v w s, hits-append px py)
      (omega (
        arith,
        hits-le-inside u px py p f₁,
        hits-le-inside d px py q f₂,
        inside_columns vp a b v w s px py f,
      ))

-- In every layout that can be reached, and any viewport whose edges are `u32` numbers, a point of
-- the screen lies in at most one pane's rectangle, and a point outside the viewport in none.
pub leaves_disjoint :
    {t : LayoutNode} (vp : Rect) (px py : ℕ)
    → Reach t
    → Fits vp
    → hits px py (leaves t vp) ≤ (if contains_pt vp px py then 1 else 0)
unfolding leaves
leaves_disjoint vp px py r f = hits-le-inside vp px py (Reach-WellSplit r).0 f
