-- ===== src/PaneOps.antt =====
-- Closing and focusing panes in the terminal client (crates/pyre-tui/src/app/pane_ops.rs, with
-- crates/pyre-tui/src/model/layout.rs and tab.rs): sessions of tabs of panes, and the slots in which
-- the client keeps its panes. A slot is the id of its pane here; the RPCs that are fired are a list.
pub mod InRange
pub mod Moves
pub mod Cycle
use pyre.Prelude.{
  ℕ, zero, suc, ◌-◌, ◌+◌, ◌%◌, Bool, true, false, List, [], ◌∷◌, ◌++◌, Option, none, some,
}
use pyre.Prelude.{
  not, ◌&&◌, ltb, leb, ◌==◌, if◌then◌else◌, length, get_elem?, get_or, set, is_empty, min,
}
use pyre.Prelude.{contains, filter, position, any, ◌||◌}
use pyre.Layout.Tree.{LayoutNode, leaf, all_leaves}
use pyre.Layout.Edit

pub record Tab : Type 0 where
  pub root : LayoutNode
  pub focus_pane : ℕ
  pub zoomed : Option ℕ

pub record SessionView : Type 0 where
  pub tabs : List Tab
  pub active_tab : ℕ

pub record AppState : Type 0 where
  pub sessions : List SessionView
  pub active_session : ℕ
  pub slots : List (Option ℕ)
  pub close_rpcs : List ℕ

-- `Vec::remove` at a position. Out of range, where the source panics, nothing changes; the callers are
-- given positions that were found in the list.
unfoldable pub remove_at {ℓ} : {A : Type ℓ} → List A → ℕ → List A
remove_at [] i = []
remove_at (x ∷ xs) zero = xs
remove_at (x ∷ xs) (suc i) = x ∷ remove_at xs i

-- `Vec::insert` at a position, at the end where it is out of range and the source panics.
unfoldable pub insert_at {ℓ} : {A : Type ℓ} → List A → ℕ → A → List A
insert_at xs zero x = x ∷ xs
insert_at [] (suc i) x = x ∷ []
insert_at (y ∷ ys) (suc i) x = y ∷ insert_at ys i x

-- The branch on the tab that is moved.
unfoldable pub moved {ℓ} : {A : Type ℓ} → List A → ℕ → ℕ → Option A → List A
moved tabs from to none = tabs
moved tabs from to (some tab) = insert_at (remove_at tabs from) to tab

unfoldable pub tab_reorder {ℓ} : {A : Type ℓ} → List A → ℕ → ℕ → List A
tab_reorder tabs from to =
    if (from == to) || (leb (length tabs) from || leb (length tabs) to)
    then tabs
    else moved tabs from to (get_elem? tabs from)

abbrev pub slot_pane : List (Option ℕ) → ℕ → Option ℕ
slot_pane [] i = none
slot_pane (s ∷ ss) zero = s
slot_pane (s ∷ ss) (suc i) = slot_pane ss i

abbrev pub holds : ℕ → Option ℕ → Bool
holds pane none = false
holds pane (some p) = p == pane

unfoldable pub pane_to_slot_idx : List (Option ℕ) → ℕ → Option ℕ
pane_to_slot_idx slots pane = position (holds pane) slots

-- The walk of `locate_pane` over the tabs of a session, then over the sessions.
unfoldable pub locate_tab : List Tab → ℕ → Option ℕ
locate_tab tabs pane = position (λ t. contains (all_leaves t.root) pane) tabs

abbrev pub here_or_later : Option ℕ → Option (ℕ × ℕ) → Option (ℕ × ℕ)
here_or_later (some ti) later = some (0, ti)
here_or_later none none = none
here_or_later none (some (si, ti)) = some (suc si, ti)

unfoldable pub locate_pane : List SessionView → ℕ → Option (ℕ × ℕ)
locate_pane [] pane = none
locate_pane (s ∷ ss) pane = here_or_later (locate_tab s.tabs pane) (locate_pane ss pane)

abbrev pub put_session : AppState → ℕ → SessionView → AppState
put_session state si view = record state { sessions = set state.sessions si view }

-- The leaves that are left: none where the tree still is the closed pane alone.
abbrev pub is_only : List ℕ → ℕ → Bool
is_only [] pane = false
is_only (x ∷ []) pane = x == pane
is_only (x ∷ (y ∷ ys)) pane = false

abbrev pub leaves_left : Option ℕ → List ℕ → ℕ → List ℕ
leaves_left none leaves pane = if is_only leaves pane then [] else leaves
leaves_left (some p) leaves pane = leaves

-- The pane that gets the focus, with the first one for want of a better.
abbrev pub next_focus : Option ℕ → List ℕ → ℕ → ℕ
next_focus none remaining old = get_or remaining 0 old
next_focus (some p) remaining old = if contains remaining p then p else get_or remaining 0 old

unfoldable pub refocus_first : List Tab → ℕ → List Tab
refocus_first [] i = []
refocus_first (t ∷ ts) zero =
    record t { focus_pane = get_or (all_leaves t.root) 0 t.focus_pane } ∷ ts
refocus_first (t ∷ ts) (suc i) = t ∷ refocus_first ts i

-- The tab is gone, and with the last tab the session.
unfoldable pub drop_tab : AppState → ℕ → ℕ → List Tab → AppState
drop_tab state si ti [] =
    let left = remove_at state.sessions si in
    record state {
      sessions = left;
      active_session =
          if is_empty left
          then state.active_session
          else min state.active_session (length left - 1);
    }
drop_tab state si ti (t ∷ ts) =
    let active = min ti (length (t ∷ ts) - 1) in
    put_session state si (record { tabs = refocus_first (t ∷ ts) active; active_tab = active })

-- The tab after its tree was closed at the pane.
unfoldable pub close_in : AppState → ℕ → ℕ → ℕ → SessionView → Tab → AppState
close_in state pane si ti view tab =
    let closed = Edit.close tab.root pane in
    let remaining = leaves_left closed.1 (all_leaves closed.0) pane in
    if is_empty remaining
    then drop_tab state si ti (remove_at view.tabs ti)
    else put_session state si (record view {
      tabs = set view.tabs ti (record {
        root = closed.0;
        focus_pane = next_focus closed.1 remaining tab.focus_pane;
        zoomed = none;
      });
    })

-- The branches on the tab and the session at the place that was found, which exist there.
unfoldable pub close_tab : AppState → ℕ → ℕ → ℕ → SessionView → Option Tab → AppState
close_tab state pane si ti view none = state
close_tab state pane si ti view (some tab) = close_in state pane si ti view tab

unfoldable pub close_session : AppState → ℕ → ℕ → ℕ → Option SessionView → AppState
close_session state pane si ti none = state
close_session state pane si ti (some view) =
    close_tab state pane si ti view (get_elem? view.tabs ti)

unfoldable pub close_located : AppState → ℕ → ℕ → Bool → Option (ℕ × ℕ) → AppState
close_located state slot_idx pane fire_rpc none = state
close_located state slot_idx pane fire_rpc (some (si, ti)) =
    let fired = record state {
      slots = set state.slots slot_idx none;
      close_rpcs = if fire_rpc then state.close_rpcs ++ (pane ∷ []) else state.close_rpcs;
    } in
    close_session fired pane si ti (get_elem? state.sessions si)

unfoldable pub close_slot : AppState → ℕ → Bool → Option ℕ → AppState
close_slot state slot_idx fire_rpc none = state
close_slot state slot_idx fire_rpc (some pane) =
    close_located state slot_idx pane fire_rpc (locate_pane state.sessions pane)

unfoldable pub close_pane_inner : AppState → ℕ → Bool → AppState
close_pane_inner state slot_idx fire_rpc =
    close_slot state slot_idx fire_rpc (slot_pane state.slots slot_idx)

-- `focus_next`: the leaves whose slot is there, and the step to the next or the one before.
abbrev pub has_slot : List (Option ℕ) → Option ℕ → Bool
has_slot slots none = false
has_slot slots (some i) = any_some (slot_pane slots i)
  where
    any_some : Option ℕ → Bool
    any_some none = false
    any_some (some p) = true

unfoldable pub live_panes : LayoutNode → List (Option ℕ) → List ℕ
live_panes root slots = filter (λ p. has_slot slots (pane_to_slot_idx slots p)) (all_leaves root)

abbrev pub or_zero : Option ℕ → ℕ
or_zero none = 0
or_zero (some i) = i

unfoldable pub next_pos : ℕ → ℕ → Bool → ℕ
next_pos pos count forward = if forward then (pos + 1) % count else ((pos + count) - 1) % count

unfoldable pub cycle : List ℕ → ℕ → Bool → ℕ
cycle live focus forward =
    if is_empty live
    then focus
    else get_or live (next_pos (or_zero (position (λ p. p == focus) live)) (length live) forward)
        focus

unfoldable pub focus_next : Tab → List (Option ℕ) → Bool → Tab
focus_next tab slots forward = record tab {
  focus_pane = cycle (live_panes tab.root slots) tab.focus_pane forward;
}

-- `focus_slot`, on the active tab of the active session: a pane of another tab is not focused.
unfoldable pub focus_in_tab : Tab → Option ℕ → Tab
focus_in_tab tab none = tab
focus_in_tab tab (some pane) =
    if contains (all_leaves tab.root) pane then record tab { focus_pane = pane } else tab
