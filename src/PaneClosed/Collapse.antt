-- ===== src/PaneClosed/Collapse.antt =====
-- `close_pane` of the supervisor's RPC surface (crates/pyred/src/supervisor.rs): the worker is asked to
-- close the pane, and then the pane is taken out of its window's layout. The worker's answers are
-- arguments.
use pyre.Prelude.{ℕ, Bool, Option, none, some, find?, if◌then◌else◌}
use pyre.PaneIndex.{SessionSlot, lookup}
use pyre.PaneClosed.{Supervisor, of_pane, forget_window, prune_layout}

pub data CloseAnswer : Type 0 where
  closed_pane : CloseAnswer
  no_such_pane : (pane : ℕ) → CloseAnswer
  io : CloseAnswer

-- The layout without the pane, the reverse index without it, and the event behind the write.
unfoldable pub prune_pane : Supervisor → ℕ → Supervisor
prune_pane sup pane =
    prune_layout (forget_window sup pane) pane (find? (of_pane pane) sup.pane_window_map)

-- The branch on the slot of the pane.
unfoldable pub close_at_slot :
    Supervisor → ℕ → (ℕ → Bool) → (ℕ → ℕ → Bool) → Option SessionSlot → Supervisor × CloseAnswer
close_at_slot sup pane connected closes none = (sup, no_such_pane pane)
close_at_slot sup pane connected closes (some at) =
    if connected at.session_id
    then (if closes at.session_id at.slot then (prune_pane sup pane, closed_pane) else (sup, io))
    else (sup, no_such_pane pane)

unfoldable pub close_pane : Supervisor → ℕ → (ℕ → Bool) → (ℕ → ℕ → Bool) → Supervisor × CloseAnswer
close_pane sup pane connected closes =
    close_at_slot sup pane connected closes (lookup sup.registry.panes pane)
