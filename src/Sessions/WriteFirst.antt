-- ===== src/Sessions/WriteFirst.antt =====
-- Write before broadcast: a change of a layout is announced only right behind the write of it.
use pyre.Prelude.{ℕ, ◌≡◌, not, refl, ap, ◌∙◌, Bool, true, false, if◌then◌else◌}
use pyre.Prelude.{Bool-cases, inl, inr, is_empty, filter}
use pyre.Prelude.{List, [], ◌∷◌, Option, none, some}
use pyre.Proto.{closed}
use pyre.Sessions.State.{
  Pane, Window, Session, Effect, upsert_session, delete_window, rename_window_row, rename_pane_row,
  announce, Registry, new, write, emit, drop_session, is_window,
}
use pyre.Sessions.Panes.{close_pane}
use pyre.Sessions.Windows.{
  new_session, new_window_in, new_window, rename_window_at, rename_window, rename_pane_at,
  rename_pane, rename_session_at, rename_session,
}
use pyre.Sessions.Exits.{
  owner, panes_of, close_panes, remove_window, close_window_of, close_window, announce_closed,
  kill_session_at, kill_session, remove_pane,
}
use pyre.Sessions.Order.{allowed, write_first, Grows, stays, then_grows, plain, plain_at}
use pyre.Sessions.Ops.{
  Op, create, open_one, split_one, close_one, weigh, add_window, end_window, name_window, name_pane,
  name_session, kill, exited, run_op, run_ops,
}
use pyre.Sessions.PaneWrites.{
  close_pane-Grows, open_pane-Grows, open_pane_split-Grows, set_pane_weight-Grows,
}

close_panes-Grows :
    (r : Registry) (ps : List ℕ) (killed : ℕ → Bool) → Grows r.log (close_panes r ps killed).log
unfolding close_panes
close_panes-Grows r [] killed = stays r.log
close_panes-Grows r (p ∷ ps) killed =
    then_grows (close_pane-Grows r p killed)
      (close_panes-Grows (close_pane r p killed true).0 ps killed)

remove_window-log :
    (r : Registry) (session window : ℕ) (o : Option Session)
    → (remove_window r session window o).log ≡ r.log
unfolding remove_window
remove_window-log r session window none = refl
remove_window-log r session window (some s) =
    elim (Bool-cases (is_empty (filter (λ w. not (is_window window w)) s.windows))) [
      | inl e ↦ rw e refl
      | inr e ↦ rw e refl
    ]

close_window-Grows :
    (r : Registry) (window : ℕ) (killed : ℕ → Bool)
    → Grows r.log (close_window r window killed).0.log
unfolding close_window close_window_of
close_window-Grows r window killed = go (owner r.sessions window)
  where
    go : (o : Option Session) → Grows r.log (close_window_of r window killed o).0.log
    go none = stays r.log
    go (some s) = then_grows (close_panes-Grows r (panes_of s window) killed) (
        plain_at _ _ (delete_window window)
          (remove_window-log (close_panes r (panes_of s window) killed) s.id window _) refl)

announce_closed-Grows : (r : Registry) (ps : List Pane) → Grows r.log (announce_closed r ps).log
unfolding announce_closed emit
announce_closed-Grows r [] = stays r.log
announce_closed-Grows r (p ∷ ps) =
    then_grows (plain r.log (announce p.id closed) refl)
      (announce_closed-Grows (emit r p.id closed none none) ps)

-- A row that is written where the store accepts it.
row-Grows :
    (r : Registry) (written : Bool) (e : Effect)
    → allowed false e ≡ true
    → Grows r.log (if written then write r e else r).log
row-Grows r true e h = plain r.log e h
row-Grows r false e h = stays r.log

new_window_in-Grows :
    (r : Registry) (session : ℕ) (name : Option (List ℕ)) (id : ℕ) (o : Option Session)
    → Grows r.log (new_window_in r session name id o).0.log
unfolding new_window_in
new_window_in-Grows r session name id none = stays r.log
new_window_in-Grows r session name id (some s) = plain r.log _ refl

rename_window_at-Grows :
    (r : Registry) (window : ℕ) (name : List ℕ) (written : Bool) (o : Option Window)
    → Grows r.log (rename_window_at r window name written o).0.log
unfolding rename_window_at
rename_window_at-Grows r window name written none = stays r.log
rename_window_at-Grows r window name written (some w) =
    row-Grows (record r { sessions = _ }) written (rename_window_row window name) refl

rename_pane_at-Grows :
    (r : Registry) (pane : ℕ) (name : List ℕ) (written : Bool) (o : Option (Session × Pane))
    → Grows r.log (rename_pane_at r pane name written o).0.log
unfolding rename_pane_at
rename_pane_at-Grows r pane name written none = stays r.log
rename_pane_at-Grows r pane name written (some (s, p)) =
    row-Grows (record r { sessions = _ }) written (rename_pane_row pane p.session name) refl

rename_session_at-Grows :
    (r : Registry) (id : ℕ) (name : List ℕ) (written : Bool) (o : Option Session)
    → Grows r.log (rename_session_at r id name written o).0.log
unfolding rename_session_at
rename_session_at-Grows r id name written none = stays r.log
rename_session_at-Grows r id name written (some s) =
    row-Grows (record r { sessions = _ }) written (upsert_session id name) refl

kill_session_at-Grows :
    (r : Registry) (id : ℕ) (o : Option Session) → Grows r.log (kill_session_at r id o).0.log
unfolding kill_session_at
kill_session_at-Grows r id none = stays r.log
kill_session_at-Grows r id (some s) = announce_closed-Grows (drop_session r id) s.panes

run_op-Grows : (r : Registry) (op : Op) → Grows r.log (run_op r op).0.log
unfolding run_op new_session new_window rename_window rename_pane rename_session kill_session
    remove_pane emit
run_op-Grows r (create name default id window now) =
    then_grows (plain r.log _ refl) (plain _ _ refl)
run_op-Grows r (open_one session req spawn) = open_pane-Grows r session req spawn
run_op-Grows r (split_one parent orient name cmd spawn) =
    open_pane_split-Grows r parent orient name cmd spawn
run_op-Grows r (close_one pane killed) = close_pane-Grows r pane killed
run_op-Grows r (weigh pane weight written) = set_pane_weight-Grows r pane weight written
run_op-Grows r (add_window session name id) = new_window_in-Grows r session name id _
run_op-Grows r (end_window window killed) = close_window-Grows r window killed
run_op-Grows r (name_window window name written) = rename_window_at-Grows r window name written _
run_op-Grows r (name_pane pane name written) = rename_pane_at-Grows r pane name written _
run_op-Grows r (name_session session name written) =
    rename_session_at-Grows r session name written _
run_op-Grows r (kill session) = kill_session_at-Grows r session _
run_op-Grows r (exited pane) = plain r.log (announce pane closed) refl

run_ops-Grows : (r : Registry) (ops : List Op) → Grows r.log (run_ops r ops).log
unfolding run_ops
run_ops-Grows r [] = stays r.log
run_ops-Grows r (op ∷ ops) = then_grows (run_op-Grows r op) (run_ops-Grows (run_op r op).0 ops)

-- Write before broadcast: through any operations on a new registry, with any answers of the
-- pseudo-terminals, the signals and the database, a change of a layout is announced only directly
-- behind the call that writes a layout to the store.
pub run_ops-write_first : (ops : List Op) → write_first false (run_ops new ops).log ≡ true
unfolding new
run_ops-write_first ops =
    let run : Grows [] (run_ops new ops).log = run_ops-Grows new ops in
    ap (write_first false) run.grown ∙ run.in_order
