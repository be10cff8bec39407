-- ===== src/Sessions/Kept.antt =====
-- The invariant of the registry through any operations, and what the lookups promise by it.
use pyre.Prelude.{ℕ, ◌≡◌, refl, sym, inl, inr, Bool, true, false, not}
use pyre.Prelude.{Bool-cases, ==_refl, subst, List, [], ◌∷◌, Option, none, some}
use pyre.Prelude.{filter, any, is_empty, all-filter}
use pyre.Prelude.{none-filtered, ||-false}
use pyre.Proto.{closed}
use pyre.Sessions.State.{
  Pane, Session, Registry, emit, get_session, is_session, is_pane, is_window, drop_session,
}
use pyre.Sessions.Panes.{open_pane, close_pane, remove_from}
use pyre.Sessions.Windows.{
  new_session, new_window_in, new_window, rename_window, rename_pane, rename_session,
}
use pyre.Sessions.Exits.{
  panes_of, close_panes, remove_window, close_window_of, close_window, announce_closed,
  kill_session_at, kill_session, without_pane, remove_pane,
}
use pyre.Sessions.Ops.{
  Op, create, open_one, split_one, close_one, weigh, add_window, end_window, name_window, name_pane,
  name_session, kill, exited, run_op, run_ops,
}
use pyre.Sessions.Regular.{
  IsRegular, change_session-IsRegular, change_found-IsRegular, filter-IsRegular,
  filter-change_session, append-IsRegular, remove_from-IsSound, add_window-IsSound,
}
use pyre.Sessions.Owned.{
  open_in-IsRegular, close_pane-IsRegular, open_pane_split-IsRegular, set_pane_weight-IsRegular,
}
use pyre.Sessions.Renamed.{
  rename_window_at-IsRegular, rename_pane_at-IsRegular, rename_session_at-IsRegular,
}

new_session-IsRegular :
    (r : Registry) (name : Option (List ℕ)) (default : List ℕ) (id window now : ℕ)
    → IsRegular r.sessions
    → IsRegular (new_session r name default id window now).sessions
unfolding new_session
new_session-IsRegular r name default id window now h =
    append-IsRegular (filter (λ s. not (is_session id s)) r.sessions) _
      (none-filtered (is_session id) r.sessions)
      (record { windows_ne = refl; windows_own = rw (==_refl id) refl; panes_own = refl })
      (filter-IsRegular _ r.sessions h)

new_window_in-IsRegular :
    (r : Registry) (session : ℕ) (name : Option (List ℕ)) (id : ℕ) (o : Option Session)
    → IsRegular r.sessions
    → IsRegular (new_window_in r session name id o).0.sessions
unfolding new_window_in
new_window_in-IsRegular r session name id none h = h
new_window_in-IsRegular r session name id (some s) h =
    change_session-IsRegular (λ x. record x { windows = _ }) session r.sessions (λ x. refl)
      (λ x e hx. add_window-IsSound _ x (sym e) hx) h

close_panes-IsRegular :
    (r : Registry) (ps : List ℕ) (killed : ℕ → Bool)
    → IsRegular r.sessions
    → IsRegular (close_panes r ps killed).sessions
unfolding close_panes
close_panes-IsRegular r [] killed h = h
close_panes-IsRegular r (p ∷ ps) killed h =
    close_panes-IsRegular (close_pane r p killed true).0 ps killed
      (close_pane-IsRegular r p killed h)

remove_window-IsRegular :
    (r : Registry) (session window : ℕ) (o : Option Session)
    → get_session r session ≡ o
    → IsRegular r.sessions
    → IsRegular (remove_window r session window o).sessions
unfolding remove_window get_session
remove_window-IsRegular r session window none e h = h
remove_window-IsRegular r session window (some s) e h =
    elim (Bool-cases (is_empty (filter (λ w. not (is_window window w)) s.windows))) [
      | inl y ↦ rw y (
          subst IsRegular (sym (filter-change_session without session r.sessions (λ x. refl)))
            (filter-IsRegular _ r.sessions h))
      | inr y ↦ rw y (
          change_found-IsRegular without session s r.sessions (λ x. refl) e
            (λ hs. record {
              windows_ne = y;
              windows_own = all-filter _ _ s.windows hs.windows_own;
              panes_own = hs.panes_own;
            })
            h)
    ]
  where
    without : Session → Session
    without x = record x { windows = filter (λ w. not (is_window window w)) x.windows }

close_window_of-IsRegular :
    (r : Registry) (window : ℕ) (killed : ℕ → Bool) (o : Option Session)
    → IsRegular r.sessions
    → IsRegular (close_window_of r window killed o).0.sessions
unfolding close_window_of
close_window_of-IsRegular r window killed none h = h
close_window_of-IsRegular r window killed (some s) h =
    remove_window-IsRegular closed_panes s.id window (get_session closed_panes s.id) refl
      (close_panes-IsRegular r (panes_of s window) killed h)
  where
    closed_panes : Registry
    closed_panes = close_panes r (panes_of s window) killed

announce_closed-sessions :
    (r : Registry) (ps : List Pane) → (announce_closed r ps).sessions ≡ r.sessions
unfolding announce_closed emit
announce_closed-sessions r [] = refl
announce_closed-sessions r (p ∷ ps) = announce_closed-sessions (emit r p.id closed none none) ps

kill_session_at-IsRegular :
    (r : Registry) (id : ℕ) (o : Option Session)
    → IsRegular r.sessions
    → IsRegular (kill_session_at r id o).0.sessions
unfolding kill_session_at
kill_session_at-IsRegular r id none h = h
kill_session_at-IsRegular r id (some s) h =
    subst IsRegular (sym (announce_closed-sessions (drop_session r id) s.panes))
      (filter-IsRegular _ r.sessions h)

none-without_pane :
    (ss : List Session) (pane a : ℕ)
    → any (is_session a) ss ≡ false
    → any (is_session a) (without_pane ss pane) ≡ false
unfolding without_pane
none-without_pane [] pane a h = h
none-without_pane (x ∷ ss) pane a h =
    let (first, others) = ||-false {a = is_session a x} h in
    elim (Bool-cases (any (is_pane pane) x.panes)) [
      | inr e ↦ simp e (rw first (none-without_pane ss pane a others))
      | inl e ↦ elim (Bool-cases (is_empty (remove_from pane x).panes)) [
        | inl y ↦ simp (e, y) others
        | inr y ↦ simp (e, y) h
      ]
    ]

without_pane-IsRegular :
    (ss : List Session) (pane : ℕ) → IsRegular ss → IsRegular (without_pane ss pane)
unfolding without_pane
without_pane-IsRegular [] pane h = h
without_pane-IsRegular (x ∷ ss) pane (hx, absent, hs) =
    elim (Bool-cases (any (is_pane pane) x.panes)) [
      | inr e ↦
          simp e (hx, none-without_pane ss pane x.id absent, without_pane-IsRegular ss pane hs)
      | inl e ↦ elim (Bool-cases (is_empty (remove_from pane x).panes)) [
        | inl y ↦ simp (e, y) hs
        | inr y ↦ simp (e, y) (remove_from-IsSound pane x hx, absent, hs)
      ]
    ]

run_op-IsRegular :
    (r : Registry) (op : Op) → IsRegular r.sessions → IsRegular (run_op r op).0.sessions
unfolding run_op open_pane new_window close_window rename_window rename_pane rename_session
    kill_session remove_pane emit
run_op-IsRegular r (create name default id window now) h =
    new_session-IsRegular r name default id window now h
run_op-IsRegular r (open_one session req spawn) h = open_in-IsRegular r session req spawn _ h
run_op-IsRegular r (split_one parent orient name cmd spawn) h =
    open_pane_split-IsRegular r parent orient name cmd spawn h
run_op-IsRegular r (close_one pane killed) h = close_pane-IsRegular r pane killed h
run_op-IsRegular r (weigh pane weight written) h = set_pane_weight-IsRegular r pane weight written h
run_op-IsRegular r (add_window session name id) h = new_window_in-IsRegular r session name id _ h
run_op-IsRegular r (end_window window killed) h = close_window_of-IsRegular r window killed _ h
run_op-IsRegular r (name_window window name written) h =
    rename_window_at-IsRegular r window name written _ h
run_op-IsRegular r (name_pane pane name written) h =
    rename_pane_at-IsRegular r pane name written _ h
run_op-IsRegular r (name_session session name written) h =
    rename_session_at-IsRegular r session name written _ h
run_op-IsRegular r (kill session) h = kill_session_at-IsRegular r session _ h
run_op-IsRegular r (exited pane) h = without_pane-IsRegular r.sessions pane h

pub run_ops-IsRegular :
    (r : Registry) (ops : List Op) → IsRegular r.sessions → IsRegular (run_ops r ops).sessions
unfolding run_ops
run_ops-IsRegular r [] h = h
run_ops-IsRegular r (op ∷ ops) h = run_ops-IsRegular (run_op r op).0 ops (run_op-IsRegular r op h)
