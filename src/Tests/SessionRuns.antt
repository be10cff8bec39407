-- ===== src/Tests/SessionRuns.antt =====
-- A session with one window and two panes of the single-process daemon.
use pyre.Prelude.{◌≡◌, ◌⊎◌, refl, List, [], ◌∷◌, ◌++◌, true, false, none, some}
use pyre.Layout.Tree.{leaf, vertical}
use pyre.Layout.Edit
use pyre.Proto.{spawned, layout_changed}
use pyre.Sessions.State.{
  Pane, Window, Session, announce, upsert_session, upsert_pane, upsert_window_layout,
  assign_pane_window, store_failed, ok, new, get_session, get_pane, emit, find_pane, digits,
}
use pyre.Sessions.Panes.{
  OpenPaneReq, Spawn, open_pane, open_in, open_at, open_started, save_session, save_pane,
  register_pane, init_layout, open_pane_split, split_at, split_in, split_opened, split_layout,
  mirror,
}
use pyre.Sessions.Windows.{new_session, set_pane_weight, weigh_at}
use pyre.Sessions.Listing.{list_windows}
use pyre.Sessions.Exits.{remove_pane, without_pane}
use pyre.Sessions.Ops.{Op, create, open_one, split_one, run_op, run_ops}
use pyre.Sessions.Order.{write_first}
use pyre.Sessions.WriteFirst.{run_ops-write_first}
use pyre.Sessions.Failures.{IsUnsaved, IsHalfSaved, run_op-failure}
use pyre.Sessions.Lookup.{run_ops-get_pane, run_ops-open_pane}
use pyre.Sessions.Opened.{requested}
use pyre.Sessions.Splits.{split_session, run_ops-open_pane_split}
use pyre.Sessions.Ghosts.{run_ops-remove_pane}

-- An 80 by 24 pane of window 10.
abbrev request : OpenPaneReq
request = record { window = 10; name = none; cols = 80; rows = 24; shell = none }

abbrev first : Spawn
first = record {
  id = 100;
  now = 6;
  default_shell = 115 ∷ 104 ∷ [];
  started = true;
  session_saved = true;
  pane_saved = true;
}

abbrev second : Spawn
second = record {
  id = 101;
  now = 7;
  default_shell = 115 ∷ 104 ∷ [];
  started = true;
  session_saved = true;
  pane_saved = true;
}

abbrev one_pane : List Op
one_pane = create none (97 ∷ []) 1 10 5 ∷ open_one 1 request first ∷ []

abbrev two_panes : List Op
two_panes = one_pane ++ (split_one 100 vertical none none second ∷ [])

abbrev window : Window
window = record { id = 10; session = 1; name = 49 ∷ []; layout = some (leaf 100); position = 0 }

abbrev pane : Pane
pane = record {
  id = 100;
  session = 1;
  window = 10;
  name = none;
  cols = 80;
  rows = 24;
  shell = 115 ∷ 104 ∷ [];
}

abbrev session : Session
session = record {
  id = 1;
  name = 97 ∷ [];
  last_active_at = 6;
  panes = pane ∷ [];
  windows = window ∷ [];
}

built : get_session (run_ops new one_pane) 1 ≡ some session
unfolding run_ops run_op new get_session new_session open_pane open_in open_at open_started
    save_session save_pane register_pane init_layout emit digits
built = refl

found : get_pane (run_ops new one_pane) 100 ≡ some (session, pane)
unfolding run_ops run_op new get_session new_session open_pane open_in open_at open_started
    save_session save_pane register_pane init_layout emit digits get_pane find_pane
found = refl

run_ops-write_first_example : write_first false (run_ops new two_panes).log ≡ true
run_ops-write_first_example = run_ops-write_first two_panes

-- The process of another pane starts, and the store refuses the pane's row.
abbrev refused : Op
refused = open_one 1 request (record second { pane_saved = false })

run_op-failure_example :
    ((run_op (run_ops new two_panes) refused).0 ≡ run_ops new two_panes)
    ⊎ (IsUnsaved (run_ops new two_panes) (run_op (run_ops new two_panes) refused).0 store_failed
        ⊎ IsHalfSaved
            (run_ops new two_panes)
            (run_op (run_ops new two_panes) refused).0
            store_failed)
unfolding run_op run_ops new set_pane_weight weigh_at get_pane find_pane get_session new_session
    open_pane open_in open_at open_started save_session save_pane register_pane init_layout emit
    digits open_pane_split split_at split_in split_opened split_layout
run_op-failure_example = run_op-failure (run_ops new two_panes) refused store_failed refl

run_ops-get_pane_example :
    (pane.id ≡ 100)
    × (pane.session ≡ session.id)
    × (get_session (run_ops new one_pane) 1 ≡ some session)
run_ops-get_pane_example = run_ops-get_pane one_pane 100 session pane found

-- Window 99 does not exist.
run_ops-open_pane_example :
    (open_pane (run_ops new one_pane) 1 (record request { window = 99 }) second).1 ≡ ok 101
run_ops-open_pane_example =
    run_ops-open_pane one_pane 1 session (record request { window = 99 }) second built refl refl
      refl

run_ops-open_pane_split_example :
    let (r, answer) = open_pane_split (run_ops new one_pane) 100 vertical none none second in
    let split = Edit.split_focused (leaf 100) 100 101 vertical in
    let added = requested session window (mirror pane none none) second in
    (answer ≡ ok 101)
    × (get_session r 1 ≡ some (split_session session window split added 7))
    × (r.log
        ≡ (run_ops new one_pane).log
          ++ (upsert_session 1 (97 ∷ [])
              ∷ upsert_pane 101 1 (115 ∷ 104 ∷ []) 80 24
              ∷ assign_pane_window 101 1 10
              ∷ announce 101 spawned
              ∷ upsert_window_layout 10 split
              ∷ announce 101 layout_changed
              ∷ []))
run_ops-open_pane_split_example =
    run_ops-open_pane_split one_pane 100 session pane window (leaf 100) vertical none none second
      found refl refl refl refl refl

-- What is left when the shell of pane 101 has exited: its leaf is in the tree of window 10.
abbrev ghost : Session
ghost = record session {
  last_active_at = 7;
  windows = record window { layout = some (Edit.split_focused (leaf 100) 100 101 vertical) } ∷ [];
}

left : get_session (remove_pane (run_ops new two_panes) 101) 1 ≡ some ghost
unfolding run_ops run_op new get_session new_session open_pane open_in open_at open_started
    save_session save_pane register_pane init_layout emit digits get_pane find_pane open_pane_split
    split_at split_in split_opened split_layout remove_pane without_pane Edit.split_focused
left = refl

run_ops-remove_pane_example :
    (s : Session) × (get_session (run_ops new two_panes) 1 ≡ some s) × (ghost.windows ≡ s.windows)
run_ops-remove_pane_example = run_ops-remove_pane two_panes 101 1 ghost left

-- The lists after the split.
listed :
    list_windows (run_ops new two_panes) 1
    ≡ record { id = 10; session = 1; name = 49 ∷ []; position = 0; pane_count = 2 } ∷ []
unfolding run_ops run_op new get_session new_session open_pane open_in open_at open_started
    save_session save_pane register_pane init_layout emit digits get_pane find_pane open_pane_split
    split_at split_in split_opened split_layout list_windows
listed = refl
