-- ===== src/Layout/Direction.antt =====
-- The pane that `focus_dir` finds in a direction (crates/pyre-proto/src/layout.rs), in the layouts
-- that can be reached: there no edge and no centre of a rectangle leaves the numbers of 32 bits.
use mathlib.Core.Option
use pyre.Prelude.{ℕ, ◌+◌, ◌-◌, ◌/◌, ◌≤◌, ◌≡◌, ◌≢◌, refl, sym, arith}
use pyre.Prelude.{Bool, true, not, ◌&&◌, Option, some, none}
use pyre.Prelude.{◌==◌, subst, contains}
use pyre.Layout.Tree.{LayoutNode, Dir, left, right, up, down, all_leaves}
use pyre.Layout.Geometry.{
  Rect, leaves_inner, rect_for, unit_viewport, lies, distance, nearest, candidates, focus_dir,
}
use pyre.Layout.WellSplit.{WellSplit, one, stacked, beside}
use pyre.Layout.Reach.{Reach, Reach-WellSplit}
use pyre.Layout.Area.{
  Fits, upper, lower, near, far, leaves_stacked, leaves_beside, upper-Fits, near-Fits,
}
use pyre.Layout.Focus.{
  id_of, In, All, All-In, All-append, In-filter, filter-In, find?-In, find_by_id, nearest_lem,
  nearest-none, ids-leaves_inner,
}

-- The edges of every leaf are numbers of 32 bits.
leaves_inner-Fits :
    {t : LayoutNode} (vp : Rect) → WellSplit t → Fits vp → All (λ e. Fits e.1) (leaves_inner t vp)
unfolding leaves_inner
leaves_inner-Fits vp (one id) f = (f, tt)
leaves_inner-Fits vp (stacked {a} {b} {v} {w} p q s l r) f =
    let (f₁, f₂) = upper-Fits vp a b v w s f in
    subst (All (λ e. Fits e.1)) (sym (leaves_stacked vp a b v w s)) (
      All-append (λ e. Fits e.1) _ _ (leaves_inner-Fits (upper vp a b v w s) p f₁)
        (leaves_inner-Fits (lower vp a b v w s) q f₂))
leaves_inner-Fits vp (beside {a} {b} {v} {w} p q s l r) f =
    let (f₁, f₂) = near-Fits vp a b v w s f in
    subst (All (λ e. Fits e.1)) (sym (leaves_beside vp a b v w s)) (
      All-append (λ e. Fits e.1) _ _ (leaves_inner-Fits (near vp a b v w s) p f₁)
        (leaves_inner-Fits (far vp a b v w s) q f₂))

-- The rectangle `r` lies wholly on one side of `cur`: x grows to the right and y downwards.
abbrev pub IsBeyond : Dir → Rect → Rect → Type 0
IsBeyond left cur r = r.x + r.w ≤ cur.x
IsBeyond right cur r = cur.x + cur.w ≤ r.x
IsBeyond up cur r = r.y + r.h ≤ cur.y
IsBeyond down cur r = cur.y + cur.h ≤ r.y

-- How far apart two numbers are, and two centres along both axes.
abbrev pub apart : ℕ → ℕ → ℕ
apart a b = (a - b) + (b - a)

abbrev pub centres_apart : Rect → Rect → ℕ
centres_apart a b = apart (a.x + a.w / 2) (b.x + b.w / 2) + apart (a.y + a.h / 2) (b.y + b.h / 2)

lies-IsBeyond :
    (dir : Dir) (cur r : Rect) → Fits cur → Fits r → lies dir cur r ≡ true → IsBeyond dir cur r
unfolding lies
lies-IsBeyond left cur r f g h = ground (arith, f, g, h)
lies-IsBeyond right cur r f g h = ground (arith, f, g, h)
lies-IsBeyond up cur r f g h = ground (arith, f, g, h)
lies-IsBeyond down cur r f g h = ground (arith, f, g, h)

IsBeyond-lies :
    (dir : Dir) (cur r : Rect) → Fits cur → Fits r → IsBeyond dir cur r → lies dir cur r ≡ true
unfolding lies
IsBeyond-lies left cur r f g h = ground (arith, f, g, h)
IsBeyond-lies right cur r f g h = ground (arith, f, g, h)
IsBeyond-lies up cur r f g h = ground (arith, f, g, h)
IsBeyond-lies down cur r f g h = ground (arith, f, g, h)

distance-eq : (cur r : Rect) → Fits cur → Fits r → distance cur r ≡ centres_apart cur r
unfolding distance
distance-eq cur r f g = ground (arith, f, g)

-- Another pane of the tree, with its rectangle, that lies in the direction.
abbrev pub Lies : LayoutNode → ℕ → Dir → Rect → ℕ → Rect → Type 0
Lies t current dir cur id r =
    In (id, r) (leaves_inner t unit_viewport) × (id ≢ current) × IsBeyond dir cur r

-- The answer is such a pane and none of them is nearer, or there is none.
abbrev pub Answers : LayoutNode → ℕ → Dir → Rect → Option ℕ → Type 0
Answers t current dir cur none = (id : ℕ) (r : Rect) → ¬ Lies t current dir cur id r
Answers t current dir cur (some picked) =
    (rect : Rect) × Lies t current dir cur picked rect
    × ((id : ℕ) (r : Rect)
        → Lies t current dir cur id r
        → centres_apart cur rect ≤ centres_apart cur r)

module _ (t : LayoutNode) (current : ℕ) (dir : Dir) (cur : Rect)
    (fits : All (λ e. Fits e.1) (leaves_inner t unit_viewport)) (cur_fits : Fits cur) where
  picks : ℕ × Rect → Bool
  picks e = not (e.0 == current) && lies dir cur e.1

  Lies-candidate :
      (id : ℕ) (r : Rect)
      → Lies t current dir cur id r
      → In (id, r) (candidates (leaves_inner t unit_viewport) current dir cur)
  unfolding picks
  Lies-candidate id r (i, ne, beyond) =
      let y : lies dir cur r ≡ true =
        IsBeyond-lies dir cur r cur_fits (All-In (λ e. Fits e.1) _ (id, r) fits i) beyond in
      In-filter picks (leaves_inner t unit_viewport) (id, r) (ground (arith, y, ne)) i

  candidate-Lies :
      (id : ℕ) (r : Rect)
      → In (id, r) (candidates (leaves_inner t unit_viewport) current dir cur)
      → Fits r × Lies t current dir cur id r
  unfolding picks
  candidate-Lies id r h =
      let (y, i) = filter-In picks (leaves_inner t unit_viewport) (id, r) h in
      let g : Fits r = All-In (λ e. Fits e.1) _ (id, r) fits i in
      let other : id ≢ current = ground (arith, y) in
      let z : lies dir cur r ≡ true = ground (arith, y) in
      (g, (i, other, lies-IsBeyond dir cur r cur_fits g z))

  nearest-Answers :
      (o : Option (ℕ × Rect))
      → nearest (distance cur) (candidates (leaves_inner t unit_viewport) current dir cur) ≡ o
      → Answers t current dir cur (Option.map id_of o)
  nearest-Answers none h =
      λ id r there. subst (In (id, r)) (nearest-none (distance cur) _ h) (Lies-candidate id r there)
  nearest-Answers (some (q, rect)) h =
      let (i, least) =
        nearest_lem (distance cur) (candidates (leaves_inner t unit_viewport) current dir cur) h in
      let (g, there) = candidate-Lies q rect i in
      (
        rect,
        there,
        λ id r other.
            let (g', _) = candidate-Lies id r (Lies-candidate id r other) in
            let le : distance cur rect ≤ distance cur r =
              All-In (λ x. distance cur rect ≤ distance cur x.1) _ (id, r) least
                (Lies-candidate id r other) in
            let a = distance-eq cur rect cur_fits g in
            let b = distance-eq cur r cur_fits g' in omega (arith, le, a, b),
      )

-- In every layout that can be reached, `focus_dir` finds from a pane of the tree another pane of the
-- tree, whose rectangle lies wholly to the left of the current pane's rectangle, to its right, above
-- or below it, as the direction asks for, and whose centre is at least as near (along both axes
-- together) as that of any other such pane; it finds none only if there is no such pane. The
-- rectangles are those of a screen of 1000 by 1000.
pub focus_dir_lem :
    {t : LayoutNode} (current : ℕ) (dir : Dir)
    → Reach t
    → contains (all_leaves t) current ≡ true
    → (cur : Rect) × (rect_for t unit_viewport current ≡ some cur)
      × Answers t current dir cur (focus_dir t current dir)
unfolding focus_dir rect_for
focus_dir_lem {t} c dir reached h =
    let ls = leaves_inner t unit_viewport in
    let fits : All (λ e. Fits e.1) ls =
      leaves_inner-Fits unit_viewport (Reach-WellSplit reached).0
        (record { right = omega arith; bottom = omega arith }) in
    let (cur, e) = find_by_id c ls (rw (ids-leaves_inner t unit_viewport) h) in
    let cur_fits : Fits cur =
      All-In (λ x. Fits x.1) ls (c, cur) fits (find?-In (λ x. x.0 == c) ls e).1 in
    (cur, rw e, rw e (nearest-Answers t c dir cur fits cur_fits _ refl))
