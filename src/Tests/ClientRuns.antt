-- ===== src/Tests/ClientRuns.antt =====
-- A deck of two toasts, a selection over two lines, and a client with two sessions.
use pyre.Prelude.{
  ℕ, ◌≤◌, ◌≡◌, refl, true, ◌&&◌, ◌||◌, List, [], ◌∷◌, none, some, length, get_elem?,
  contains as member, arith,
}
use pyre.Layout.Tree.{leaf, vsplit, nil, cons, all_leaves, LayoutNode}
use pyre.Layout.Edit.{close, close_at, remove_leaf, refocus}
use pyre.Deck.{Toast, ToastDeck, DeckOp, show, expire, info, warn, new, run, push}
use pyre.Deck.Bounded.{toasts-push, run-bounded}
use pyre.Selection.{Selection, contains, before, contains-between}
use pyre.PaneOps.{
  Tab, AppState, close_pane_inner, close_slot, close_located, close_session, close_tab, close_in,
  drop_tab, remove_at, locate_pane, locate_tab, tab_reorder,
}
use pyre.PaneOps.InRange.{InRange, close_pane_inner-InRange}
use pyre.PaneOps.Moves.{tab_reorder_lem, active_session_shifts}

abbrev old : Toast
old = record { title = []; body = []; kind = info; born_at = 0; ttl = 9 }

abbrev full : ToastDeck
full = record { toasts = old ∷ old ∷ []; max_visible = 2; enabled = true; ttl = 9 }

toasts-push_example :
    (push full 5 [] [] warn).toasts
    ≡ old ∷ record { title = []; body = []; kind = warn; born_at = 5; ttl = 9 } ∷ []
toasts-push_example = toasts-push full 5 [] [] warn refl

abbrev deck_ops : List DeckOp
deck_ops = show 1 [] [] info ∷ show 2 [] [] warn ∷ expire 4 ∷ show 5 [] [] info ∷ []

run-bounded_example : length (run (new true 9 2) deck_ops).toasts ≤ 2
run-bounded_example = run-bounded true 9 2 deck_ops

-- A drag from the end to the start.
abbrev dragged : Selection
dragged = record { start = record { row = 2; col = 3 }; end = record { row = 1; col = 5 } }

contains-between_example : contains dragged 1 7 ≡ (
    (before (record { row = 2; col = 3 }) (record { row = 1; col = 7 })
      && before (record { row = 1; col = 7 }) (record { row = 1; col = 5 }))
    || (before (record { row = 1; col = 5 }) (record { row = 1; col = 7 })
        && before (record { row = 1; col = 7 }) (record { row = 2; col = 3 })))
contains-between_example = contains-between dragged 1 7

abbrev single : LayoutNode → Tab
single root = record { root = root; focus_pane = 1; zoomed = none }

-- Session 0 has the pane 1 alone, session 1 the panes 2 and 3.
abbrev client : AppState
client = record {
  sessions =
      record { tabs = single (leaf 1) ∷ []; active_tab = 0 }
      ∷ record {
        tabs = single (vsplit (cons (leaf 2) 50 (cons (leaf 3) 50 nil))) ∷ [];
        active_tab = 0;
      }
      ∷ [];
  active_session = 0;
  slots = some 1 ∷ some 2 ∷ some 3 ∷ [];
  close_rpcs = [];
}

client-InRange : InRange client
client-InRange = record { tabs_ok = refl; active_ok = refl }

close_pane_inner-InRange_example : InRange (close_pane_inner client 0 true)
close_pane_inner-InRange_example = close_pane_inner-InRange client 0 true client-InRange

last_pane_of_a_session :
    (close_pane_inner client 0 true).sessions
    ≡ record {
      tabs = single (vsplit (cons (leaf 2) 50 (cons (leaf 3) 50 nil))) ∷ [];
      active_tab = 0;
    }
      ∷ []
unfolding close_pane_inner close_slot close_located close_session close_tab close_in drop_tab
    remove_at locate_pane locate_tab close close_at remove_leaf refocus all_leaves
last_pane_of_a_session = refl

abbrev tabs : List ℕ
tabs = 4 ∷ 5 ∷ 6 ∷ []

tab_reorder_lem_example :
    (get_elem? (tab_reorder tabs 0 2) 2 ≡ some 4)
    × (remove_at (tab_reorder tabs 0 2) 2 ≡ remove_at tabs 0)
tab_reorder_lem_example = tab_reorder_lem tabs 0 2 (omega arith) (omega arith)

active_session_shifts_example :
    get_elem? (drop_tab client 0 0 []).sessions (drop_tab client 0 0 []).active_session
    ≡ get_elem? client.sessions 1
active_session_shifts_example = active_session_shifts client 0 0 (omega arith) (omega arith)

abbrev pair : Tab
pair = record {
  root = vsplit (cons (leaf 2) 50 (cons (leaf 3) 50 nil));
  focus_pane = 3;
  zoomed = none;
}
