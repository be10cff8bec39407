-- ===== src/PaneIndex/Lookup.antt =====
-- Looking up panes, and what the counts count.
use pyre.Prelude.{ℕ, suc, ◌≡◌, refl, ap, ◌∙◌, inl, inr, arith, Bool-cases, ◌+◌}
use pyre.Prelude.{List, [], ◌∷◌, ◌++◌, Bool, true, false, not, Option, some}
use pyre.Prelude.{◌==◌, if◌then◌else◌, length, filter, find?, map, subst, ==_refl}
use mathlib.Core.Option
use pyre.PaneIndex.{
  PaneEntry, PaneIndex, SessionSlot, WorkerRegistry, has_pane, in_session, at_slot, register,
  lookup, next_slot, pane_count, remove_pane_slot, alloc_pane, live_pane_ids,
}

find?-append :
    (p : PaneEntry → Bool) (es : List PaneEntry) (e : PaneEntry)
    → p e ≡ false
    → find? p (es ++ (e ∷ [])) ≡ find? p es
find?-append p [] e h = rw h refl
find?-append p (x ∷ es) e h = ground (arith, find?-append p es e h)

find_fresh :
    (pane : ℕ) (es : List PaneEntry) (e : PaneEntry)
    → has_pane pane e ≡ true
    → find? (has_pane pane) (filter (λ x. not (has_pane pane x)) es ++ (e ∷ [])) ≡ some e
find_fresh pane [] e h = rw h refl
find_fresh pane (x ∷ es) e h = ground (arith, find_fresh pane es e h)

find_other :
    (pane other : ℕ) (es : List PaneEntry)
    → (other == pane) ≡ false
    → find? (has_pane other) (filter (λ x. not (has_pane pane x)) es) ≡ find? (has_pane other) es
find_other pane other [] h = refl
find_other pane other (x ∷ es) h = ground (arith, find_other pane other es h)

pub lookup-register :
    (index : PaneIndex) (pane session slot other : ℕ)
    → lookup (register index pane session slot) other ≡ (
        if other == pane
        then some (record { session_id = session; slot = slot })
        else lookup index other)
unfolding lookup register
lookup-register index pane session slot other = elim (Bool-cases (other == pane)) [
  | inl e ↦ rw e (
      ap out (
        subst
          (λ k.
            find? (has_pane k) (filter (λ x. not (has_pane pane x)) es ++ (new_entry ∷ []))
            ≡ some new_entry)
          {x = pane} (ground arith) (find_fresh pane es new_entry (==_refl pane))))
  | inr e ↦ rw e (
      ap out (
        find?-append (has_pane other) (filter (λ x. not (has_pane pane x)) es) new_entry
          (ground arith)
        ∙ find_other pane other es e))
]
  where
    es : List PaneEntry
    es = index.pane_to_slot

    new_entry : PaneEntry
    new_entry = record { pane_id = pane; session_id = session; slot_idx = slot }

    out : Option PaneEntry → Option SessionSlot
    out = Option.map (λ e. record { session_id = e.session_id; slot = e.slot_idx })

-- Allocating a pane makes its id look up to the session and the slot that was handed out, and
-- leaves what every other id looks up to as it was.
pub lookup-alloc_pane :
    (registry : WorkerRegistry) (fresh session pane : ℕ)
    → lookup (alloc_pane registry fresh session).0.panes pane ≡ (
        if pane == fresh
        then some (record { session_id = session; slot = (alloc_pane registry fresh session).1.1 })
        else lookup registry.panes pane)
unfolding alloc_pane next_slot lookup
lookup-alloc_pane registry fresh session pane =
    lookup-register (next_slot registry.panes session).0 fresh session
      (next_slot registry.panes session).1 pane

count_split :
    (s i : ℕ) (es : List PaneEntry)
    → length (filter (at_slot s i) es)
        + length (filter (in_session s) (filter (λ e. not (at_slot s i e)) es))
      ≡ length (filter (in_session s) es)
count_split s i [] = refl
count_split s i (e ∷ es) = ground (arith, count_split s i es)

count_other :
    (s i t : ℕ) (es : List PaneEntry)
    → (s == t) ≡ false
    → filter (in_session t) (filter (λ e. not (at_slot s i e)) es) ≡ filter (in_session t) es
count_other s i t [] h = refl
count_other s i t (e ∷ es) h = ground (arith, count_other s i t es h)

length-map_ids : (es : List PaneEntry) → length (map (λ e. e.pane_id) es) ≡ length es
length-map_ids [] = refl
length-map_ids (e ∷ es) = ap suc (length-map_ids es)

-- Removing a slot answers the number of panes that are left in the session, which is short of the old count by the panes that stood at the slot.
pub remove_pane_slot_lem :
    (index : PaneIndex) (session slot : ℕ)
    → ((remove_pane_slot index session slot).1
        ≡ pane_count (remove_pane_slot index session slot).0 session)
      × (length (filter (at_slot session slot) index.pane_to_slot)
            + (remove_pane_slot index session slot).1
          ≡ pane_count index session)
unfolding remove_pane_slot pane_count
remove_pane_slot_lem index session slot = (refl, count_split session slot index.pane_to_slot)

-- Removing a slot does not touch the panes of another session, and a session has as many live
-- pane ids as it has panes.
pub pane_count_other :
    (registry : WorkerRegistry) (session slot other : ℕ)
    → (session == other) ≡ false
    → (pane_count (remove_pane_slot registry.panes session slot).0 other
        ≡ pane_count registry.panes other)
      × (length (live_pane_ids registry other) ≡ pane_count registry.panes other)
unfolding remove_pane_slot pane_count live_pane_ids
pane_count_other registry session slot other h = (
  ap length (count_other session slot other registry.panes.pane_to_slot h),
  length-map_ids (filter (in_session other) registry.panes.pane_to_slot),
)
