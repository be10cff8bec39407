-- ===== src/Sessions/Windows.antt =====
-- Sessions and windows: creating, renaming and closing them, and the weights of a layout.
use pyre.Prelude.{ℕ, ◌+◌, Bool, true, false, List, [], ◌∷◌, ◌++◌, Option, none, some}
use pyre.Prelude.{not, if◌then◌else◌, length, filter, find?, map}
use pyre.Layout.Tree.{LayoutNode}
use pyre.Layout.Weights
use pyre.Proto.{layout_changed}
use pyre.Sessions.State.{
  Pane, Window, Session, upsert_session, upsert_window, upsert_window_layout, rename_window_row,
  rename_pane_row, Registry, no_such_session, no_such_pane, no_such_window, no_layout, store_failed,
  Result, ok, err, is_session, is_pane, is_window, get_session, get_pane, find_window,
  change_session, change_window, put_layout, write, emit, decimal,
}

-- A name that is absent or empty is replaced.
abbrev or_default : Option (List ℕ) → List ℕ → List ℕ
or_default none default = default
or_default (some []) default = default
or_default (some (c ∷ cs)) default = c ∷ cs

-- `short8` is the head of the UUID's text.
unfoldable pub new_session : Registry → Option (List ℕ) → List ℕ → ℕ → ℕ → ℕ → Registry
new_session r name default id window now =
    let resolved = or_default name default in
    let first : Window = record {
      id = window;
      session = id;
      name = decimal 1;
      layout = none;
      position = 0;
    } in
    let state : Session = record {
      id = id;
      name = resolved;
      last_active_at = now;
      panes = [];
      windows = first ∷ [];
    } in
    let inserted = record r {
      sessions = filter (λ s. not (is_session id s)) r.sessions ++ (state ∷ []);
    } in
    write (write inserted (upsert_session id resolved)) (upsert_window window id (decimal 1) 0)

-- The branch on the session; the position is the number of windows, the name one more.
unfoldable pub new_window_in :
    Registry → ℕ → Option (List ℕ) → ℕ → Option Session → Registry × Result ℕ
new_window_in r session name id none = (r, err (no_such_session session))
new_window_in r session name id (some s) =
    let position = length s.windows in
    let resolved = or_default name (decimal (position + 1)) in
    let window : Window = record {
      id = id;
      session = session;
      name = resolved;
      layout = none;
      position = position;
    } in
    let pushed = record r {
      sessions =
          change_session (λ x. record x { windows = x.windows ++ (window ∷ []) }) session
            r.sessions;
    } in
    (write pushed (upsert_window id session resolved position), ok id)

unfoldable pub new_window : Registry → ℕ → Option (List ℕ) → ℕ → Registry × Result ℕ
new_window r session name id = new_window_in r session name id (get_session r session)

-- A window is renamed in memory first; the write may fail.
abbrev pub answer : Bool → Result (Unit {0})
answer true = ok tt
answer false = err store_failed

unfoldable pub rename_window_at :
    Registry → ℕ → List ℕ → Bool → Option Window → Registry × Result (Unit {0})
rename_window_at r window name written none = (r, err (no_such_window window))
rename_window_at r window name written (some w) =
    let renamed = record r {
      sessions = map (λ s. change_window (λ x. record x { name = name }) window s) r.sessions;
    } in
    (if written then write renamed (rename_window_row window name) else renamed, answer written)

unfoldable pub rename_window : Registry → ℕ → List ℕ → Bool → Registry × Result (Unit {0})
rename_window r window name written = rename_window_at r window name written (find_window r window)

unfoldable pub rename_pane_at :
    Registry → ℕ → List ℕ → Bool → Option (Session × Pane) → Registry × Result (Unit {0})
rename_pane_at r pane name written none = (r, err (no_such_pane pane))
rename_pane_at r pane name written (some (s, p)) =
    let renamed = record r {
      sessions =
          change_session
            (λ x. record x {
              panes =
                  map (λ q. if is_pane pane q then record q { name = some name } else q) x.panes;
            })
            s.id r.sessions;
    } in
    (
      if written then write renamed (rename_pane_row pane p.session name) else renamed,
      answer written,
    )

unfoldable pub rename_pane : Registry → ℕ → List ℕ → Bool → Registry × Result (Unit {0})
rename_pane r pane name written = rename_pane_at r pane name written (get_pane r pane)

unfoldable pub rename_session_at :
    Registry → ℕ → List ℕ → Bool → Option Session → Registry × Result (Unit {0})
rename_session_at r id name written none = (r, err (no_such_session id))
rename_session_at r id name written (some s) =
    let renamed = record r {
      sessions = change_session (λ x. record x { name = name }) id r.sessions;
    } in
    (if written then write renamed (upsert_session id name) else renamed, answer written)

unfoldable pub rename_session : Registry → ℕ → List ℕ → Bool → Registry × Result (Unit {0})
rename_session r id name written = rename_session_at r id name written (get_session r id)

-- The weights change in memory; the event follows only a write that succeeded.
unfoldable pub weigh_tree :
    Registry → ℕ → ℕ → ℕ → ℕ → Bool → Option LayoutNode → Registry × Result (Unit {0})
weigh_tree r session window pane weight written none = (r, err no_layout)
weigh_tree r session window pane weight written (some tree) =
    let weighed = Weights.set_weight tree pane weight in
    let changed = record r {
      sessions = change_session (change_window (put_layout weighed) window) session r.sessions;
    } in
    if written
    then (
      emit (write changed (upsert_window_layout window weighed)) pane layout_changed none none,
      ok tt,
    )
    else (changed, err store_failed)

unfoldable pub weigh_window :
    Registry → Session → Pane → ℕ → Bool → Option Window → Registry × Result (Unit {0})
weigh_window r s p weight written none = (r, err (no_such_window p.window))
weigh_window r s p weight written (some w) = weigh_tree r s.id w.id p.id weight written w.layout

unfoldable pub weigh_at :
    Registry → ℕ → ℕ → Bool → Option (Session × Pane) → Registry × Result (Unit {0})
weigh_at r pane weight written none = (r, err (no_such_pane pane))
weigh_at r pane weight written (some (s, p)) =
    weigh_window r s p weight written (find? (is_window p.window) s.windows)

unfoldable pub set_pane_weight : Registry → ℕ → ℕ → Bool → Registry × Result (Unit {0})
set_pane_weight r pane weight written = weigh_at r pane weight written (get_pane r pane)
