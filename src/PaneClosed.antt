-- ===== src/PaneClosed.antt =====
-- The supervisor's `pane_closed` callback (crates/pyred/src/supervisor.rs), by which a worker
-- reports that a pane has ended: it works on the registry, on the windows' layouts and on the event
-- bus. The store is a database: the model keeps the layouts that were handed to it.
pub mod Effects
pub mod NotStarted
pub mod Collapse
pub mod EitherOrder
use pyre.Prelude.{ℕ, Bool, List, [], ◌∷◌, ◌++◌, Option, none, some}
use pyre.Prelude.{not, ◌==◌, if◌then◌else◌, filter, find?, map}
use pyre.Layout.Tree.{LayoutNode}
use pyre.Layout.Edit
use pyre.Proto.{closed, layout_changed}
use pyre.EventBus.{PaneEventBus, emit}
use pyre.PaneIndex.{WorkerRegistry, get_or_alloc_pane_by_slot, remove_pane_slot, remove}

-- An entry of `pane_window_map`.
pub record PaneWindow : Type 0 where
  pub pane_id : ℕ
  pub window_id : ℕ

pub record WindowMeta : Type 0 where
  pub window_id : ℕ
  pub layout : Option LayoutNode

pub record SavedLayout : Type 0 where
  pub window_id : ℕ
  pub layout : LayoutNode

pub record Supervisor : Type 0 where
  pub registry : WorkerRegistry
  pub pane_window_map : List PaneWindow
  pub window_store : List WindowMeta
  pub pane_event_bus : PaneEventBus
  pub saved : List SavedLayout

abbrev pub of_pane : ℕ → PaneWindow → Bool
of_pane pane w = w.pane_id == pane

abbrev pub of_window : ℕ → WindowMeta → Bool
of_window window meta = meta.window_id == window

abbrev pub put_layout : ℕ → LayoutNode → List WindowMeta → List WindowMeta
put_layout window tree metas =
    map (λ meta. if of_window window meta then record meta { layout = some tree } else meta) metas

-- The branch on the window's layout.
unfoldable pub prune_tree : Supervisor → ℕ → ℕ → Option LayoutNode → Supervisor
prune_tree sup pane window none = sup
prune_tree sup pane window (some tree) =
    let pruned = (Edit.close tree pane).0 in
    record sup {
      window_store = put_layout window pruned sup.window_store;
      saved = sup.saved ++ (record { window_id = window; layout = pruned } ∷ []);
      pane_event_bus = emit sup.pane_event_bus pane layout_changed none;
    }

-- The branch on the window's metadata.
unfoldable pub prune_window : Supervisor → ℕ → Option WindowMeta → Supervisor
prune_window sup pane none = sup
prune_window sup pane (some meta) = prune_tree sup pane meta.window_id meta.layout

-- The branch on the window of the pane.
unfoldable pub prune_layout : Supervisor → ℕ → Option PaneWindow → Supervisor
prune_layout sup pane none = sup
prune_layout sup pane (some w) =
    prune_window sup pane (find? (of_window w.window_id) sup.window_store)

abbrev pub forget_window : Supervisor → ℕ → Supervisor
forget_window sup pane = record sup {
  pane_window_map = filter (λ w. not (of_pane pane w)) sup.pane_window_map;
}

-- The branch on the pane that stood at the slot.
unfoldable pub announce : Supervisor → Option ℕ → Supervisor
announce sup none = sup
announce sup (some pane) =
    let window = find? (of_pane pane) sup.pane_window_map in
    let pruned = prune_layout (forget_window sup pane) pane window in
    record pruned { pane_event_bus = emit pruned.pane_event_bus pane closed none }

-- The registry's part: the last pane of a session takes the session with it.
unfoldable pub drop_slot : WorkerRegistry → ℕ → ℕ → WorkerRegistry
drop_slot registry session slot =
    let removed = remove_pane_slot registry.panes session slot in
    let left = record registry { panes = removed.0 } in
    if removed.1 == 0 then (remove left session).0 else left

unfoldable pub pane_closed : Supervisor → ℕ → ℕ → ℕ → Supervisor
pane_closed sup fresh session slot =
    let claimed = get_or_alloc_pane_by_slot sup.registry fresh session slot in
    announce (record sup { registry = drop_slot claimed.0 session slot }) claimed.1
