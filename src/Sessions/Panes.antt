-- ===== src/Sessions/Panes.antt =====
-- Opening, splitting and closing panes, and the weights of a window's layout.
use pyre.Prelude.{ℕ, Bool, true, false, List, [], ◌∷◌, ◌++◌, Option, none, some}
use pyre.Prelude.{not, if◌then◌else◌, filter, find?}
use pyre.Layout.Tree.{LayoutNode, leaf, Orient}
use pyre.Layout.Edit
use pyre.Proto.{running, unknown, spawned, closed, layout_changed}
use pyre.Sessions.State.{
  Pane, Window, Session, Effect, upsert_session, upsert_pane, upsert_window_layout,
  assign_pane_window, Registry, no_such_session, no_such_pane, no_such_window, no_windows,
  spawn_failed, kill_failed, store_failed, Result, ok, err, or_else, is_pane, is_window,
  get_session, get_pane, change_session, change_window, put_layout, write, emit,
  evict_session_if_empty,
}

pub record OpenPaneReq : Type 0 where
  pub window : ℕ
  pub name : Option (List ℕ)
  pub cols : ℕ
  pub rows : ℕ
  pub shell : Option (List ℕ)

-- What an opening draws from outside: a new UUID, the time, the shell of the environment, whether
-- the process started, and whether the store then took the row of the session and that of the pane.
pub record Spawn : Type 0 where
  pub id : ℕ
  pub now : ℕ
  pub default_shell : List ℕ
  pub started : Bool
  pub session_saved : Bool
  pub pane_saved : Bool

abbrev pub first_window : List Window → Option Window
first_window [] = none
first_window (w ∷ ws) = some w

abbrev pub target_window : List Window → ℕ → Option Window
target_window ws id = or_else (find? (is_window id) ws) (first_window ws)

abbrev pub insert_pane : Pane → ℕ → Session → Session
insert_pane p now s = record s {
  panes = filter (λ q. not (is_pane p.id q)) s.panes ++ (p ∷ []);
  last_active_at = now;
}

-- The first pane of a window becomes its layout; a later one is left to `open_pane_split`.
unfoldable pub init_layout : Registry → ℕ → ℕ → ℕ → Option LayoutNode → Registry
init_layout r session window pane (some tree) = r
init_layout r session window pane none =
    write
      (record r {
        sessions =
            change_session (change_window (put_layout (leaf pane)) window) session r.sessions;
      })
      (upsert_window_layout window (leaf pane))

-- `spawn_pty`: the requested shell, or that of the environment.
abbrev pub shell_or : Option (List ℕ) → List ℕ → List ℕ
shell_or (some shell) default = shell
shell_or none default = default

-- The pane is registered before its event is sent.
unfoldable pub register_pane : Registry → Session → Window → OpenPaneReq → Spawn → Registry
register_pane r s w req spawn =
    let pane : Pane = record {
      id = spawn.id;
      session = s.id;
      window = w.id;
      name = req.name;
      cols = req.cols;
      rows = req.rows;
      shell = shell_or req.shell spawn.default_shell;
    } in
    let assigned = write r (assign_pane_window spawn.id s.id w.id) in
    let registered = record assigned {
      sessions = change_session (insert_pane pane spawn.now) s.id assigned.sessions;
    } in
    emit (init_layout registered s.id w.id spawn.id w.layout) spawn.id spawned (some running)
      (some unknown)

-- The rows that `spawn_pty` writes once the process runs.
unfoldable pub save_session : Registry → Session → Registry
save_session r s = write r (upsert_session s.id s.name)

unfoldable pub save_pane : Registry → Session → OpenPaneReq → Spawn → Registry
save_pane r s req spawn =
    write r (upsert_pane spawn.id s.id (shell_or req.shell spawn.default_shell) req.cols req.rows)

-- The process runs. Where a row is refused the pane is not registered.
unfoldable pub open_started :
    Registry → Session → OpenPaneReq → Spawn → Window → Registry × Result ℕ
open_started r s req spawn w =
    if not spawn.session_saved
    then (r, err store_failed)
    else if not spawn.pane_saved
    then (save_session r s, err store_failed)
    else (register_pane (save_pane (save_session r s) s req spawn) s w req spawn, ok spawn.id)

-- The branches on the window and on the session.
unfoldable pub open_at :
    Registry → Session → OpenPaneReq → Spawn → Option Window → Registry × Result ℕ
open_at r s req spawn none = (r, err (no_windows s.id))
open_at r s req spawn (some w) =
    if spawn.started then open_started r s req spawn w else (r, err spawn_failed)

unfoldable pub open_in : Registry → ℕ → OpenPaneReq → Spawn → Option Session → Registry × Result ℕ
open_in r id req spawn none = (r, err (no_such_session id))
open_in r id req spawn (some s) = open_at r s req spawn (target_window s.windows req.window)

unfoldable pub open_pane : Registry → ℕ → OpenPaneReq → Spawn → Registry × Result ℕ
open_pane r session req spawn = open_in r session req spawn (get_session r session)

-- The store of the best-effort writes is there or not.
abbrev write_if : Bool → Registry → Effect → Registry
write_if true r e = write r e
write_if false r e = r

-- The branch on the layout of the pane's window.
unfoldable pub prune_tree : Registry → ℕ → ℕ → ℕ → Bool → Option LayoutNode → Registry
prune_tree r session window pane stored none = r
prune_tree r session window pane stored (some tree) =
    let pruned = (Edit.close tree pane).0 in
    let changed = record r {
      sessions = change_session (change_window (put_layout pruned) window) session r.sessions;
    } in
    emit (write_if stored changed (upsert_window_layout window pruned)) pane layout_changed none
      none

unfoldable pub prune_layout : Registry → ℕ → ℕ → Bool → Option Window → Registry
prune_layout r session pane stored none = r
prune_layout r session pane stored (some w) = prune_tree r session w.id pane stored w.layout

abbrev pub remove_from : ℕ → Session → Session
remove_from pane s = record s { panes = filter (λ q. not (is_pane pane q)) s.panes }

-- The pane was found and its process was signalled.
unfoldable pub close_found : Registry → Session → Pane → Bool → Registry
close_found r s p stored =
    let removed = record r { sessions = change_session (remove_from p.id) s.id r.sessions } in
    let pruned = prune_layout removed s.id p.id stored (find? (is_window p.window) s.windows) in
    emit (evict_session_if_empty pruned s.id) p.id closed none none

-- The branch on the lookup; `killed` says for which panes the signal can be sent.
unfoldable pub close_pane_at :
    Registry → ℕ → (ℕ → Bool) → Bool → Option (Session × Pane) → Registry × Result (Unit {0})
close_pane_at r pane killed stored none = (r, err (no_such_pane pane))
close_pane_at r pane killed stored (some (s, p)) =
    if killed pane then (close_found r s p stored, ok tt) else (r, err (kill_failed pane))

unfoldable pub close_pane : Registry → ℕ → (ℕ → Bool) → Bool → Registry × Result (Unit {0})
close_pane r pane killed stored = close_pane_at r pane killed stored (get_pane r pane)

-- `get_or_insert_with`: a window that has no layout yet starts with the parent.
abbrev pub or_leaf : ℕ → Option LayoutNode → LayoutNode
or_leaf parent none = leaf parent
or_leaf parent (some tree) = tree

abbrev pub window_layout : Option Window → Option LayoutNode
window_layout none = none
window_layout (some w) = w.layout

abbrev pub session_layout : ℕ → Option Session → Option LayoutNode
session_layout window none = none
session_layout window (some s) = window_layout (find? (is_window window) s.windows)

abbrev pub current_layout : Registry → ℕ → ℕ → Option LayoutNode
current_layout r session window = session_layout window (get_session r session)

-- The layout is read and written under its lock, after the new pane was opened.
unfoldable pub split_layout : Registry → ℕ → ℕ → ℕ → ℕ → Orient → Registry
split_layout r session window parent pane orient =
    let tree =
      Edit.split_focused (or_leaf parent (current_layout r session window)) parent pane orient in
    let changed = record r {
      sessions = change_session (change_window (put_layout tree) window) session r.sessions;
    } in
    emit (write changed (upsert_window_layout window tree)) pane layout_changed none none

unfoldable pub split_opened : ℕ → ℕ → ℕ → Orient → Registry × Result ℕ → Registry × Result ℕ
split_opened session window parent orient (r, err e) = (r, err e)
split_opened session window parent orient (r, ok pane) =
    (split_layout r session window parent pane orient, ok pane)

unfoldable pub split_in :
    Registry → Session → Pane → Orient → OpenPaneReq → Spawn → Option Window → Registry × Result ℕ
split_in r s p orient req spawn none = (r, err (no_such_window p.window))
split_in r s p orient req spawn (some w) =
    split_opened s.id w.id p.id orient (open_pane r s.id req spawn)

-- The request mirrors the parent: its window, its size, and its shell unless a command is given.
abbrev pub mirror : Pane → Option (List ℕ) → Option (List ℕ) → OpenPaneReq
mirror p name cmd = record {
  window = p.window;
  name = name;
  cols = p.cols;
  rows = p.rows;
  shell = or_else cmd (some p.shell);
}

unfoldable pub split_at :
    Registry
    → ℕ
    → Orient
    → Option (List ℕ)
    → Option (List ℕ)
    → Spawn
    → Option (Session × Pane)
    → Registry × Result ℕ
split_at r parent orient name cmd spawn none = (r, err (no_such_pane parent))
split_at r parent orient name cmd spawn (some (s, p)) =
    split_in r s p orient (mirror p name cmd) spawn (find? (is_window p.window) s.windows)

unfoldable pub open_pane_split :
    Registry → ℕ → Orient → Option (List ℕ) → Option (List ℕ) → Spawn → Registry × Result ℕ
open_pane_split r parent orient name cmd spawn =
    split_at r parent orient name cmd spawn (get_pane r parent)
