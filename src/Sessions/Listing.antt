-- ===== src/Sessions/Listing.antt =====
-- What clients are told of sessions, windows, panes and layouts.
use pyre.Prelude.{ℕ, List, [], ◌∷◌, Option, none, some, length, filter, find?, map, flatten}
use pyre.Layout.Tree.{LayoutNode, leaf}
use pyre.Sessions.State.{
  Pane, Window, Session, Registry, or_else, in_window, get_session, find_window,
}
use pyre.Sessions.Panes.{first_window}

pub record WindowInfo : Type 0 where
  pub id : ℕ
  pub session : ℕ
  pub name : List ℕ
  pub position : ℕ
  pub pane_count : ℕ

pub record SessionInfo : Type 0 where
  pub id : ℕ
  pub name : List ℕ
  pub pane_count : ℕ
  pub last_active_at : ℕ

abbrev window_info : Session → Window → WindowInfo
window_info s w = record {
  id = w.id;
  session = s.id;
  name = w.name;
  position = w.position;
  pane_count = length (filter (in_window w.id) s.panes);
}

abbrev windows_of : Option Session → List WindowInfo
windows_of none = []
windows_of (some s) = map (window_info s) s.windows

unfoldable pub list_windows : Registry → ℕ → List WindowInfo
list_windows r session = windows_of (get_session r session)

unfoldable pub list_sessions : Registry → List SessionInfo
list_sessions r =
    map
      (λ s. record {
        id = s.id;
        name = s.name;
        pane_count = length s.panes;
        last_active_at = s.last_active_at;
      })
      r.sessions

abbrev panes_or_none : Option Session → List Pane
panes_or_none none = []
panes_or_none (some s) = s.panes

unfoldable pub list_panes : Registry → ℕ → List Pane
list_panes r session = panes_or_none (get_session r session)

unfoldable pub list_all_panes : Registry → List Pane
list_all_panes r = flatten (map (λ s. s.panes) r.sessions)

-- A window without a layout is shown as the first of its panes.
abbrev leaf_of : Option Pane → Option LayoutNode
leaf_of none = none
leaf_of (some p) = some (leaf p.id)

abbrev first_pane : List Pane → Option Pane
first_pane [] = none
first_pane (p ∷ ps) = some p

unfoldable pub window_layout_at : Registry → ℕ → Option Window → Option LayoutNode
window_layout_at r id none = none
window_layout_at r id (some w) =
    or_else w.layout (leaf_of (find? (in_window id) (list_all_panes r)))

unfoldable pub get_window_layout : Registry → ℕ → Option LayoutNode
get_window_layout r id = window_layout_at r id (find_window r id)

abbrev layout_or_pane : Session → Option Window → Option LayoutNode
layout_or_pane s none = none
layout_or_pane s (some w) = or_else w.layout (leaf_of (first_pane s.panes))

unfoldable pub layout_at : Option Session → Option LayoutNode
layout_at none = none
layout_at (some s) = layout_or_pane s (first_window s.windows)

unfoldable pub get_layout : Registry → ℕ → Option LayoutNode
get_layout r session = layout_at (get_session r session)
