-- ===== src/Tests/PaneRuns.antt =====
-- A session of two panes: its slots, and the reports that they were closed.
use pyre.Prelude.{
  ◌==◌, contains, false, ◌+◌, ◌≡◌, refl, List, [], ◌∷◌, none, some, filter, length, arith,
}
use pyre.Layout.Tree.{leaf, vsplit, nil, cons, LayoutNode}
use pyre.EventBus
use pyre.EventBus.{emit}
use pyre.PaneIndex.{
  WorkerRegistry, alloc_pane, lookup, remove_pane_slot, pane_count, live_pane_ids, at_slot,
  get_or_alloc_pane_by_slot, alloc_unless_dead, pane_id_by_slot, next_slot, counter, remove, worker,
  is_dead,
}
use pyre.PaneIndex.Lookup.{lookup-alloc_pane, remove_pane_slot_lem, pane_count_other}
use pyre.PaneIndex.Slots.{SlotOp, alloc, claim, evict, run_op, run_ops, closed_slot_stays_closed}
use pyre.PaneIndex.Slots
use pyre.PaneIndex.Reuse.{evicted_slot_reopens, claimed_slot_is_allocated}
use pyre.PaneClosed.{Supervisor, pane_closed}
use pyre.PaneIndex.Respawn.{Watch, exited, beat, registered, watch_all}
use pyre.PaneIndex.Connect.{connected, connect_worker_ctrl, connect_worker_ctrl-eq}
use pyre.PaneClosed.Collapse.{prune_pane}
use pyre.PaneClosed.EitherOrder.{prune_pane-pane_closed}
use pyre.PaneClosed.NotStarted.{last_pane_closed_stays}
use pyre.PaneClosed.Effects.{remaining, pane_closed_twice, last_pane_closed}

-- Session 5 has the panes 100 and 101 at its slots 0 and 1.
abbrev registry : WorkerRegistry
registry = record {
  inner = record { session_id = 5; handle = record { pid = 77; last_heartbeat = 0 } } ∷ [];
  panes = record {
    pane_to_slot =
        record { pane_id = 100; session_id = 5; slot_idx = 0 }
        ∷ record { pane_id = 101; session_id = 5; slot_idx = 1 }
        ∷ [];
    next_slot = record { session_id = 5; slot = 2 } ∷ [];
    dead_slots = [];
  };
}

lookup-alloc_pane_example :
    lookup (alloc_pane registry 102 5).0.panes 102 ≡ some (record { session_id = 5; slot = 2 })
unfolding alloc_pane next_slot counter
lookup-alloc_pane_example = lookup-alloc_pane registry 102 5 102

remove_pane_slot_lem_example :
    ((remove_pane_slot registry.panes 5 0).1 ≡ pane_count (remove_pane_slot registry.panes 5 0).0 5)
    × (length (filter (at_slot 5 0) registry.panes.pane_to_slot)
          + (remove_pane_slot registry.panes 5 0).1
        ≡ pane_count registry.panes 5)
remove_pane_slot_lem_example = remove_pane_slot_lem registry.panes 5 0

pane_count_other_example :
    (pane_count (remove_pane_slot registry.panes 4 0).0 5 ≡ pane_count registry.panes 5)
    × (length (live_pane_ids registry 5) ≡ pane_count registry.panes 5)
pane_count_other_example = pane_count_other registry 4 0 5 refl

abbrev later_ops : List SlotOp
later_ops = claim 103 5 0 ∷ alloc 104 5 ∷ evict 6 ∷ []

closed_slot_stays_closed_example :
    get_or_alloc_pane_by_slot (run_ops (run_op registry (Slots.close 5 0)) later_ops) 105 5 0
    ≡ (run_ops (run_op registry (Slots.close 5 0)) later_ops, none)
unfolding counter
closed_slot_stays_closed_example =
    closed_slot_stays_closed registry 5 0 105 later_ops (omega arith) (omega arith) refl

evicted_slot_reopens_example :
    (get_or_alloc_pane_by_slot (remove registry 5).0 106 5 0).1 ≡ some 106
evicted_slot_reopens_example = evicted_slot_reopens registry 5 0 106

claimed_slot_is_allocated_example :
    let claimed = (get_or_alloc_pane_by_slot registry 107 5 2).0 in
    let allocated = (alloc_pane claimed 108 5).0 in
    (lookup allocated.panes 107 ≡ some (record { session_id = 5; slot = 2 }))
    × (lookup allocated.panes 108 ≡ some (record { session_id = 5; slot = 2 }))
unfolding counter pane_id_by_slot is_dead
claimed_slot_is_allocated_example = claimed_slot_is_allocated registry 5 107 108 refl refl refl

abbrev split : LayoutNode
split = vsplit (cons (leaf 100) 50 (cons (leaf 101) 50 nil))

abbrev supervisor : Supervisor
supervisor = record {
  registry = registry;
  pane_window_map =
      record { pane_id = 100; window_id = 9 } ∷ record { pane_id = 101; window_id = 9 } ∷ [];
  window_store = record { window_id = 9; layout = some split } ∷ [];
  pane_event_bus = EventBus.new;
  saved = [];
}

pane_closed_twice_example :
    let first = pane_closed supervisor 110 5 0 in
    let second = pane_closed first 111 5 0 in
    (second.pane_event_bus ≡ first.pane_event_bus)
    × (second.window_store ≡ first.window_store)
    × (second.saved ≡ first.saved)
unfolding remaining remove_pane_slot get_or_alloc_pane_by_slot alloc_unless_dead pane_id_by_slot
pane_closed_twice_example = pane_closed_twice supervisor 110 111 5 0 refl

-- The same supervisor when only the pane 101 is left.
abbrev last_one : Supervisor
last_one = record supervisor {
  registry = record registry {
    panes = record registry.panes {
      pane_to_slot = record { pane_id = 101; session_id = 5; slot_idx = 1 } ∷ [];
    };
  };
}

last_pane_closed_example :
    let after = (pane_closed last_one 112 5 1).registry in
    (worker after 5 ≡ none) × ((get_or_alloc_pane_by_slot after 113 5 1).1 ≡ some 113)
unfolding remaining remove_pane_slot get_or_alloc_pane_by_slot alloc_unless_dead pane_id_by_slot
last_pane_closed_example = last_pane_closed last_one 112 113 5 1 refl

-- The worker ends, a worker of session 6 registers, and a minute passes.
abbrev aftermath : List Watch
aftermath = exited 77 ∷ registered 6 (record { pid = 78; last_heartbeat = 9 }) ∷ beat 60000 ∷ []

last_pane_closed_stays_example :
    contains (watch_all (pane_closed last_one 112 5 1).registry aftermath).1 5 ≡ false
unfolding remaining remove_pane_slot get_or_alloc_pane_by_slot alloc_unless_dead pane_id_by_slot
last_pane_closed_stays_example = last_pane_closed_stays last_one 112 5 1 aftermath refl refl

prune_pane-pane_closed_example :
    (pane_closed (prune_pane supervisor 100) 110 5 0 ≡ pane_closed supervisor 110 5 0)
    × (prune_pane (pane_closed supervisor 110 5 0) 100 ≡ pane_closed supervisor 110 5 0)
unfolding pane_id_by_slot
prune_pane-pane_closed_example = prune_pane-pane_closed supervisor 110 5 0 100 refl

-- The socket is there at the fourth attempt.
connect_worker_ctrl-eq_example : connect_worker_ctrl (λ k. k == 3) ≡ connected 3 600
connect_worker_ctrl-eq_example = connect_worker_ctrl-eq (λ k. k == 3)
