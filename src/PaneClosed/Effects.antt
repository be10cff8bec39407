-- ===== src/PaneClosed/Effects.antt =====
-- What a report of a closed pane does to the registry, the layouts and the bus.
use pyre.Prelude.{ℕ, ◌≡◌, refl, ap, arith, ==_refl}
use pyre.Prelude.{List, [], ◌∷◌, true, false, not, Option, none, some}
use pyre.Prelude.{◌==◌, filter, find?}
use pyre.Layout.Tree.{LayoutNode}
use pyre.PaneIndex.{
  WorkerRegistry, Worker, at_slot, is_dead, pane_id_by_slot, remove_pane_slot, remove, worker,
  without, alloc_unless_dead, get_or_alloc_pane_by_slot,
}
use pyre.PaneIndex.Vacant.{any-removed, find_vacant}
use pyre.PaneIndex.Reuse.{evicted_slot_reopens}
use pyre.PaneClosed.{
  Supervisor, WindowMeta, PaneWindow, of_pane, of_window, prune_tree, prune_window, prune_layout,
  forget_window, announce, drop_slot, pane_closed,
}

-- The panes that are left in the session when the closed one is gone.
unfoldable pub remaining : Supervisor → ℕ → ℕ → ℕ → ℕ
remaining sup fresh session slot =
    (remove_pane_slot (get_or_alloc_pane_by_slot sup.registry fresh session slot).0.panes session
      slot).1

registry-prune_tree :
    (sup : Supervisor) (pane window : ℕ) (tree : Option LayoutNode)
    → (prune_tree sup pane window tree).registry ≡ sup.registry
unfolding prune_tree
registry-prune_tree sup pane window none = refl
registry-prune_tree sup pane window (some tree) = refl

registry-prune_layout :
    (sup : Supervisor) (pane : ℕ) (w : Option PaneWindow)
    → (prune_layout sup pane w).registry ≡ sup.registry
unfolding prune_layout prune_window
registry-prune_layout sup pane none = refl
registry-prune_layout sup pane (some w) = go (find? (of_window w.window_id) sup.window_store)
  where
    go : (meta : Option WindowMeta) → (prune_window sup pane meta).registry ≡ sup.registry
    go none = refl
    go (some meta) = registry-prune_tree sup pane meta.window_id meta.layout

registry-announce : (sup : Supervisor) (o : Option ℕ) → (announce sup o).registry ≡ sup.registry
unfolding announce
registry-announce sup none = refl
registry-announce sup (some pane) =
    registry-prune_layout (forget_window sup pane) pane (find? (of_pane pane) sup.pane_window_map)

pub registry-pane_closed :
    (sup : Supervisor) (fresh session slot : ℕ)
    → (pane_closed sup fresh session slot).registry
      ≡ drop_slot (get_or_alloc_pane_by_slot sup.registry fresh session slot).0 session slot
unfolding pane_closed
registry-pane_closed sup fresh session slot = registry-announce _ _

removed_slot_refuses :
    (r : WorkerRegistry) (session slot fresh : ℕ)
    → let left : WorkerRegistry = record r { panes = (remove_pane_slot r.panes session slot).0 } in
      get_or_alloc_pane_by_slot left fresh session slot ≡ (left, none)
unfolding get_or_alloc_pane_by_slot alloc_unless_dead pane_id_by_slot is_dead remove_pane_slot
removed_slot_refuses r session slot fresh =
    rw
      (
        find_vacant (at_slot session slot)
            (filter (λ e. not (at_slot session slot e)) r.panes.pane_to_slot)
            (any-removed (at_slot session slot) r.panes.pane_to_slot),
        ==_refl session,
        ==_refl slot,
      )
      refl

dropped_slot_refuses :
    (r : WorkerRegistry) (session slot fresh : ℕ)
    → ((remove_pane_slot r.panes session slot).1 == 0) ≡ false
    → get_or_alloc_pane_by_slot (drop_slot r session slot) fresh session slot
      ≡ (drop_slot r session slot, none)
unfolding drop_slot
dropped_slot_refuses r session slot fresh h = rw h (removed_slot_refuses r session slot fresh)

no_pane_no_effect :
    (sup : Supervisor) (fresh session slot : ℕ)
    → (get_or_alloc_pane_by_slot sup.registry fresh session slot).1 ≡ none
    → let after = pane_closed sup fresh session slot in
      (after.pane_event_bus ≡ sup.pane_event_bus)
      × (after.window_store ≡ sup.window_store)
      × (after.saved ≡ sup.saved)
unfolding pane_closed announce
no_pane_no_effect sup fresh session slot h = rw h (refl, refl, refl)

-- While other panes are left in the session, a second report of the same pane has no effect on the
-- layouts, on what is stored and on the bus: no event is sent twice.
pub pane_closed_twice :
    (sup : Supervisor) (fresh again session slot : ℕ)
    → (remaining sup fresh session slot == 0) ≡ false
    → let first = pane_closed sup fresh session slot in
      let second = pane_closed first again session slot in
      (second.pane_event_bus ≡ first.pane_event_bus)
      × (second.window_store ≡ first.window_store)
      × (second.saved ≡ first.saved)
unfolding remaining
pane_closed_twice sup fresh again session slot h =
    no_pane_no_effect (pane_closed sup fresh session slot) again session slot (
      rw (registry-pane_closed sup fresh session slot) (
        ap (λ x. x.1)
          (dropped_slot_refuses (get_or_alloc_pane_by_slot sup.registry fresh session slot).0
            session slot again h)))

without_absent :
    (session : ℕ) (ws : List Worker)
    → find? (λ w. w.session_id == session) (without session ws) ≡ none
without_absent session [] = refl
without_absent session (w ∷ ws) = ground (arith, without_absent session ws)

worker-remove : (r : WorkerRegistry) (session : ℕ) → worker (remove r session).0 session ≡ none
unfolding worker remove
worker-remove r session = rw (without_absent session r.inner) refl

pub drop_last_slot :
    (r : WorkerRegistry) (session slot : ℕ)
    → ((remove_pane_slot r.panes session slot).1 == 0) ≡ true
    → drop_slot r session slot
      ≡ (remove (record r { panes = (remove_pane_slot r.panes session slot).0 }) session).0
unfolding drop_slot
drop_last_slot r session slot h = rw h refl

-- The report of the last pane of a session removes the session's worker from the registry, so
-- that it is not started again; but the slot is then no longer known to be closed, and a late event
-- for it is given a new pane.
pub last_pane_closed :
    (sup : Supervisor) (fresh late session slot : ℕ)
    → (remaining sup fresh session slot == 0) ≡ true
    → let after = (pane_closed sup fresh session slot).registry in
      (worker after session ≡ none)
      × ((get_or_alloc_pane_by_slot after late session slot).1 ≡ some late)
unfolding remaining
last_pane_closed sup fresh late session slot h =
    rw
      (
        registry-pane_closed sup fresh session slot,
        drop_last_slot (get_or_alloc_pane_by_slot sup.registry fresh session slot).0 session slot h,
      )
      (worker-remove _ session, evicted_slot_reopens _ session slot late)
