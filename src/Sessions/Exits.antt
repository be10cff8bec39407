-- ===== src/Sessions/Exits.antt =====
-- Closing a window, killing a session, and the end of a pane's process.
use pyre.Prelude.{ℕ, Bool, true, List, [], ◌∷◌, Option, none, some}
use pyre.Prelude.{not, if◌then◌else◌, filter, find?, any, is_empty, map}
use pyre.Proto.{closed}
use pyre.Sessions.State.{
  Pane, Session, delete_window, Registry, no_such_session, no_such_window, Result, ok, err, is_pane,
  is_window, in_window, get_session, change_session, write, emit, drop_session,
}
use pyre.Sessions.Panes.{close_pane, remove_from}

-- The session that owns the window.
abbrev pub owner : List Session → ℕ → Option Session
owner ss window = find? (λ s. any (is_window window) s.windows) ss

abbrev pub panes_of : Session → ℕ → List ℕ
panes_of s window = map (λ p. p.id) (filter (in_window window) s.panes)

-- A pane that cannot be closed is logged and left.
unfoldable pub close_panes : Registry → List ℕ → (ℕ → Bool) → Registry
close_panes r [] killed = r
close_panes r (p ∷ ps) killed = close_panes (close_pane r p killed true).0 ps killed

-- The window goes, and the session with its last window.
unfoldable pub remove_window : Registry → ℕ → ℕ → Option Session → Registry
remove_window r session window none = r
remove_window r session window (some s) =
    let left = filter (λ w. not (is_window window w)) s.windows in
    let removed = record r {
      sessions =
          change_session
            (λ x. record x { windows = filter (λ w. not (is_window window w)) x.windows }) session
            r.sessions;
    } in
    if is_empty left then drop_session removed session else removed

unfoldable pub close_window_of :
    Registry → ℕ → (ℕ → Bool) → Option Session → Registry × Result (Unit {0})
close_window_of r window killed none = (r, err (no_such_window window))
close_window_of r window killed (some s) =
    let closed_panes = close_panes r (panes_of s window) killed in
    let removed = remove_window closed_panes s.id window (get_session closed_panes s.id) in
    (write removed (delete_window window), ok tt)

unfoldable pub close_window : Registry → ℕ → (ℕ → Bool) → Registry × Result (Unit {0})
close_window r window killed = close_window_of r window killed (owner r.sessions window)

-- Every pane is announced as closed, whether its signal was sent or not.
unfoldable pub announce_closed : Registry → List Pane → Registry
announce_closed r [] = r
announce_closed r (p ∷ ps) = announce_closed (emit r p.id closed none none) ps

unfoldable pub kill_session_at : Registry → ℕ → Option Session → Registry × Result (Unit {0})
kill_session_at r id none = (r, err (no_such_session id))
kill_session_at r id (some s) = (announce_closed (drop_session r id) s.panes, ok tt)

unfoldable pub kill_session : Registry → ℕ → Registry × Result (Unit {0})
kill_session r id = kill_session_at r id (get_session r id)

-- The walk of `remove_pane`: the first session that has the pane loses it, and goes with its last.
unfoldable pub without_pane : List Session → ℕ → List Session
without_pane [] pane = []
without_pane (s ∷ ss) pane =
    let rest = without_pane ss pane in
    if any (is_pane pane) s.panes
    then (if is_empty (remove_from pane s).panes then ss else remove_from pane s ∷ ss)
    else s ∷ rest

-- Called when the process has exited; the layout of the window is left as it is.
unfoldable pub remove_pane : Registry → ℕ → Registry
remove_pane r pane =
    emit (record r { sessions = without_pane r.sessions pane }) pane closed none none
