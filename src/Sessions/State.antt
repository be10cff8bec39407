-- ===== src/Sessions/State.antt =====
-- The registry's data, its lookups and its updates.
use pyre.Prelude.{ℕ, zero, suc, ◌+◌, ◌/◌, ◌%◌, Bool, List, [], ◌∷◌, ◌++◌, Option, none, some}
use pyre.Prelude.{not, ltb, ◌==◌, if◌then◌else◌, filter, find?, is_empty, map}
use pyre.Layout.Tree.{LayoutNode}
use pyre.Proto.{PaneStateKind, AgentKind, PaneEventKind}
use pyre.EventBus.{PaneEventBus, emit_event}
use pyre.EventBus

-- The created and closed times, the PTY handles and the tracker of a pane are left out.
pub record Pane : Type 0 where
  pub id : ℕ
  pub session : ℕ
  pub window : ℕ
  pub name : Option (List ℕ)
  pub cols : ℕ
  pub rows : ℕ
  pub shell : List ℕ

pub record Window : Type 0 where
  pub id : ℕ
  pub session : ℕ
  pub name : List ℕ
  pub layout : Option LayoutNode
  pub position : ℕ

pub record Session : Type 0 where
  pub id : ℕ
  pub name : List ℕ
  pub last_active_at : ℕ
  pub panes : List Pane
  pub windows : List Window

-- What goes out: the rows handed to the store, and the events, in their order. A row whose refusal
-- the code passes on to its caller stands here only if the store took it; one whose refusal is at
-- most logged stands here in any case. The working directory of a pane's row is left out.
pub data Effect : Type 0 where
  upsert_session : (id : ℕ) (name : List ℕ) → Effect
  upsert_pane : (pane session : ℕ) (shell : List ℕ) (cols rows : ℕ) → Effect
  upsert_window : (id session : ℕ) (name : List ℕ) (position : ℕ) → Effect
  upsert_window_layout : (window : ℕ) (tree : LayoutNode) → Effect
  assign_pane_window : (pane session window : ℕ) → Effect
  delete_window : (window : ℕ) → Effect
  rename_window_row : (window : ℕ) (name : List ℕ) → Effect
  rename_pane_row : (pane session : ℕ) (name : List ℕ) → Effect
  announce : (pane : ℕ) (kind : PaneEventKind) → Effect

pub record Registry : Type 0 where
  pub sessions : List Session
  pub bus : PaneEventBus
  pub log : List Effect

pub data Error : Type 0 where
  no_such_session : (id : ℕ) → Error
  no_such_pane : (id : ℕ) → Error
  no_such_window : (id : ℕ) → Error
  no_windows : (session : ℕ) → Error
  no_layout : Error
  spawn_failed : Error
  kill_failed : (pane : ℕ) → Error
  store_failed : Error

pub data Result {ℓ} (A : Type ℓ) : Type ℓ where
  ok : A → Result A
  err : Error → Result A

unfoldable pub new : Registry
new = record { sessions = []; bus = EventBus.new; log = [] }

abbrev pub or_else {ℓ} : {A : Type ℓ} → Option A → Option A → Option A
or_else (some a) later = some a
or_else none later = later

abbrev pub is_session : ℕ → Session → Bool
is_session id s = s.id == id

abbrev pub is_pane : ℕ → Pane → Bool
is_pane id p = p.id == id

abbrev pub is_window : ℕ → Window → Bool
is_window id w = w.id == id

abbrev pub in_window : ℕ → Pane → Bool
in_window window p = p.window == window

unfoldable pub get_session : Registry → ℕ → Option Session
get_session r id = find? (is_session id) r.sessions

abbrev pub with_session : Session → Option Pane → Option (Session × Pane)
with_session s none = none
with_session s (some p) = some (s, p)

unfoldable pub find_pane : List Session → ℕ → Option (Session × Pane)
find_pane [] id = none
find_pane (s ∷ ss) id = or_else (with_session s (find? (is_pane id) s.panes)) (find_pane ss id)

unfoldable pub get_pane : Registry → ℕ → Option (Session × Pane)
get_pane r id = find_pane r.sessions id

unfoldable pub window_in : List Session → ℕ → Option Window
window_in [] id = none
window_in (s ∷ ss) id = or_else (find? (is_window id) s.windows) (window_in ss id)

unfoldable pub find_window : Registry → ℕ → Option Window
find_window r id = window_in r.sessions id

-- An update of the session object that a lookup found.
abbrev pub change_session : (Session → Session) → ℕ → List Session → List Session
change_session f id ss = map (λ s. if is_session id s then f s else s) ss

abbrev pub change_window : (Window → Window) → ℕ → Session → Session
change_window f id s = record s { windows = map (λ w. if is_window id w then f w else w) s.windows }

abbrev pub put_layout : LayoutNode → Window → Window
put_layout tree w = record w { layout = some tree }

abbrev pub write : Registry → Effect → Registry
write r e = record r { log = r.log ++ (e ∷ []) }

-- `emit_event`: the bus, and the event's place among the writes.
unfoldable pub emit :
    Registry → ℕ → PaneEventKind → Option PaneStateKind → Option AgentKind → Registry
emit r pane kind state agent = record r {
  bus = emit_event r.bus (record { pane_id = pane; kind = kind; state = state; agent = agent });
  log = r.log ++ (announce pane kind ∷ []);
}

-- `to_string` of a `u32`, which has at most ten digits.
unfoldable pub digits : ℕ → ℕ → List ℕ → List ℕ
digits zero n text = text
digits (suc f) n text =
    let rest = digits f (n / 10) ((48 + n % 10) ∷ text) in
    if ltb n 10 then (48 + n) ∷ text else rest

abbrev pub decimal : ℕ → List ℕ
unfolding digits
decimal n = digits 10 n []

abbrev pub drop_session : Registry → ℕ → Registry
drop_session r id = record r { sessions = filter (λ x. not (is_session id x)) r.sessions }

-- The branch on the session, which may be gone already.
unfoldable pub evict_found : Registry → ℕ → Option Session → Registry
evict_found r id none = r
evict_found r id (some s) = if is_empty s.panes then drop_session r id else r

unfoldable pub evict_session_if_empty : Registry → ℕ → Registry
evict_session_if_empty r id = evict_found r id (get_session r id)
