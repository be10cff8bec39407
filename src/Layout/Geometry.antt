-- ===== src/Layout/Geometry.antt =====
-- Screen rectangles: where each leaf lies in a viewport, and which pane lies in a direction.
use pyre.Prelude.{ℕ, ◌+◌, ◌*◌, ◌/◌, max, Bool, not, ◌&&◌, List, [], ◌∷◌, ◌++◌, Option, none, some}
use pyre.Prelude.{leb, ltb, ◌==◌, if◌then◌else◌, filter, find?}
use pyre.Prelude.Machine.{u32, abs_diff}
use pyre.Layout.Tree.{
  LayoutNode, Children, leaf, hsplit, vsplit, nil, cons, Dir, left, right, up, down, weights,
  sum_u16,
}
use mathlib.Core.Option

pub record Rect : Type 0 where
  pub x : ℕ
  pub y : ℕ
  pub w : ℕ
  pub h : ℕ

unfoldable pub contains_pt : Rect → ℕ → ℕ → Bool
contains_pt r px py =
    leb r.x px && ltb px (u32 (r.x + r.w)) && leb r.y py && ltb py (u32 (r.y + r.h))

-- The weights' sum, at least 1.
abbrev pub total_weight : Children → ℕ
total_weight cs = max (sum_u16 (weights cs)) 1

-- A child's share of `extent`. The product of a `u32` and a `u16` fits in `u64`.
abbrev pub share : ℕ → ℕ → ℕ → ℕ
share extent weight total = u32 (extent * weight / total)

-- A horizontal split stacks its children from `y` on; a vertical one sets them side by side.
unfoldable mutual
  pub leaves_inner : LayoutNode → Rect → List (ℕ × Rect)
  leaves_inner (leaf id) vp = (id, vp) ∷ []
  leaves_inner (hsplit cs) vp = stack cs vp (total_weight cs) vp.y
  leaves_inner (vsplit cs) vp = columns cs vp (total_weight cs) vp.x

  pub stack : Children → Rect → ℕ → ℕ → List (ℕ × Rect)
  stack nil vp total y = []
  stack (cons n weight cs) vp total y =
      let h = share vp.h weight total in
      leaves_inner n (record { x = vp.x; y = y; w = vp.w; h = h })
      ++ stack cs vp total (u32 (y + h))

  pub columns : Children → Rect → ℕ → ℕ → List (ℕ × Rect)
  columns nil vp total x = []
  columns (cons n weight cs) vp total x =
      let w = share vp.w weight total in
      leaves_inner n (record { x = x; y = vp.y; w = w; h = vp.h })
      ++ columns cs vp total (u32 (x + w))

-- `leaves` is the public name of `leaves_inner`.
unfoldable pub leaves : LayoutNode → Rect → List (ℕ × Rect)
leaves t viewport = leaves_inner t viewport

unfoldable pub rect_for : LayoutNode → Rect → ℕ → Option Rect
rect_for t viewport target =
    Option.map (λ (e : ℕ × Rect). e.1) (find? (λ e. e.0 == target) (leaves_inner t viewport))

abbrev pub unit_viewport : Rect
unit_viewport = record { x = 0; y = 0; w = 1000; h = 1000 }

-- The half-plane beyond the current pane's edge.
unfoldable pub lies : Dir → Rect → Rect → Bool
lies left cur r = leb (u32 (r.x + r.w)) cur.x
lies right cur r = leb (u32 (cur.x + cur.w)) r.x
lies up cur r = leb (u32 (r.y + r.h)) cur.y
lies down cur r = leb (u32 (cur.y + cur.h)) r.y

-- The Manhattan distance of two rectangles' centres.
unfoldable pub distance : Rect → Rect → ℕ
distance cur r =
    abs_diff (u32 (r.x + r.w / 2)) (u32 (cur.x + cur.w / 2))
    + abs_diff (u32 (r.y + r.h / 2)) (u32 (cur.y + cur.h / 2))

-- `min_by_key`: the first element with the least key.
abbrev pub lesser : (Rect → ℕ) → (ℕ × Rect) → (ℕ × Rect) → ℕ × Rect
lesser key e best = if ltb (key e.1) (key best.1) then e else best

abbrev pub min_by_key : (Rect → ℕ) → (ℕ × Rect) → List (ℕ × Rect) → ℕ × Rect
min_by_key key best [] = best
min_by_key key best (e ∷ es) = min_by_key key (lesser key e best) es

abbrev pub nearest : (Rect → ℕ) → List (ℕ × Rect) → Option (ℕ × Rect)
nearest key [] = none
nearest key (e ∷ es) = some (min_by_key key e es)

abbrev pub candidates : List (ℕ × Rect) → ℕ → Dir → Rect → List (ℕ × Rect)
candidates ls current dir cur = filter (λ e. not (e.0 == current) && lies dir cur e.1) ls

-- `focus_dir` once the current pane's rectangle is known.
unfoldable pub focus_from : List (ℕ × Rect) → ℕ → Dir → Option (ℕ × Rect) → Option ℕ
unfolding lies distance
focus_from ls current dir none = none
focus_from ls current dir (some (id, cur)) =
    Option.map (λ (e : ℕ × Rect). e.0) (nearest (distance cur) (candidates ls current dir cur))

unfoldable pub focus_dir : LayoutNode → ℕ → Dir → Option ℕ
unfolding focus_from
focus_dir t current dir =
    let ls = leaves_inner t unit_viewport in
    focus_from ls current dir (find? (λ (e : ℕ × Rect). e.0 == current) ls)
