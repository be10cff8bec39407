-- ===== src/PaneIndex/Reuse.antt =====
-- How a slot comes back: after its session is evicted, and ahead of the session's counter.
use pyre.Prelude.{ℕ, ◌≡◌, refl, ◌∙◌, arith}
use pyre.Prelude.{List, [], ◌∷◌, false, not, none, some}
use pyre.Prelude.{◌==◌, filter, any, ==_refl}
use pyre.PaneIndex.{
  PaneEntry, WorkerRegistry, in_session, at_slot, register, pane_id_by_slot, is_dead, counter,
  next_slot, remove_session, remove, alloc_pane, alloc_unless_dead, get_or_alloc_pane_by_slot,
  lookup,
}
use pyre.PaneIndex.Vacant.{find_vacant, any-filter_gone}
use pyre.PaneIndex.Lookup.{lookup-register, lookup-alloc_pane}

-- Evicting a session forgets its closed slots: a late event for any slot of it is given a pane.
pub evicted_slot_reopens :
    (r : WorkerRegistry) (session slot fresh : ℕ)
    → (get_or_alloc_pane_by_slot (remove r session).0 fresh session slot).1 ≡ some fresh
unfolding get_or_alloc_pane_by_slot alloc_unless_dead pane_id_by_slot remove remove_session is_dead
evicted_slot_reopens r session slot fresh =
    rw
      (
        find_vacant (at_slot session slot)
            (filter (λ e. not (in_session session e)) r.panes.pane_to_slot)
            (no_slot r.panes.pane_to_slot),
        any-filter_gone session slot r.panes.dead_slots,
      )
      refl
  where
    no_slot :
        (es : List PaneEntry)
        → any (at_slot session slot) (filter (λ e. not (in_session session e)) es) ≡ false
    no_slot [] = refl
    no_slot (e ∷ es) = ground (arith, no_slot es)

-- A slot that a late event claims ahead of the counter is handed out once more: afterwards two
-- pane ids stand for the same slot.
pub claimed_slot_is_allocated :
    (r : WorkerRegistry) (session first second : ℕ)
    → pane_id_by_slot r.panes session (counter r.panes.next_slot session) ≡ none
    → is_dead r.panes session (counter r.panes.next_slot session) ≡ false
    → (first == second) ≡ false
    → let slot = counter r.panes.next_slot session in
      let claimed = (get_or_alloc_pane_by_slot r first session slot).0 in
      let allocated = (alloc_pane claimed second session).0 in
      (lookup allocated.panes first ≡ some (record { session_id = session; slot = slot }))
      × (lookup allocated.panes second ≡ some (record { session_id = session; slot = slot }))
unfolding get_or_alloc_pane_by_slot alloc_unless_dead counter alloc_pane next_slot register
claimed_slot_is_allocated r session first second v d ne =
    rw (v, d)
      (
        lookup-alloc_pane claimed second session first
            ∙ rw ne (lookup-register r.panes first session slot first ∙ rw (==_refl first) refl),
        lookup-alloc_pane claimed second session second ∙ rw (==_refl second) refl,
      )
  where
    slot : ℕ
    slot = counter r.panes.next_slot session

    claimed : WorkerRegistry
    claimed = record r { panes = register r.panes first session slot }
