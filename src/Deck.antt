-- ===== src/Deck.antt =====
-- The toast notifications of the clients (crates/pyre-tui/src/model/toast.rs, and its twin
-- crates/pyre-gpu/src/toast.rs). A text is a list of numbers; a time is a number of nanoseconds, and
-- the clock is an argument. The short name of a pane's UUID is a library's, an argument.
pub mod Bounded
use pyre.Prelude.{ℕ, ◌-◌, Bool, true, false, List, [], ◌∷◌, ◌++◌, Option, none, some}
use pyre.Prelude.{not, ltb, leb, if◌then◌else◌, length, filter}
use pyre.Prelude.Text.{codes}
use pyre.Proto.{
  AgentKind, unknown, shell, claude_code, codex, pi, open_code, cursor_agent, droid, amp,
  PaneStateKind, waiting_input, done, crashed, PaneEventKind, spawned, closed, state_changed,
  layout_changed, PaneEvent,
}

pub data ToastKind : Type 0 where
  info : ToastKind
  success : ToastKind
  warn : ToastKind
  error : ToastKind

pub record Toast : Type 0 where
  pub title : List ℕ
  pub body : List ℕ
  pub kind : ToastKind
  pub born_at : ℕ
  pub ttl : ℕ

pub record ToastDeck : Type 0 where
  pub toasts : List Toast
  pub max_visible : ℕ
  pub enabled : Bool
  pub ttl : ℕ

unfoldable pub is_expired : Toast → ℕ → Bool
is_expired t now = leb t.ttl (now - t.born_at)

unfoldable pub new : Bool → ℕ → ℕ → ToastDeck
new enabled ttl max_visible = record {
  toasts = [];
  max_visible = max_visible;
  enabled = enabled;
  ttl = ttl;
}

-- The loop that drops the oldest toasts.
unfoldable pub trim : ℕ → List Toast → List Toast
trim max_visible [] = []
trim max_visible (t ∷ ts) =
    let rest = trim max_visible ts in if ltb max_visible (length (t ∷ ts)) then rest else t ∷ ts

unfoldable pub push : ToastDeck → ℕ → List ℕ → List ℕ → ToastKind → ToastDeck
push deck now title body kind =
    if not deck.enabled
    then deck
    else let toast : Toast = record {
      title = title;
      body = body;
      kind = kind;
      born_at = now;
      ttl = deck.ttl;
    } in
      record deck { toasts = trim deck.max_visible (deck.toasts ++ (toast ∷ [])) }

unfoldable pub tick : ToastDeck → ℕ → ToastDeck
tick deck now = record deck { toasts = filter (λ t. not (is_expired t now)) deck.toasts }

-- `AgentKind::label` of crates/pyre-proto/src/sessions.rs.
unfoldable pub label : AgentKind → List ℕ
label unknown = codes "unknown"
label shell = codes "shell"
label claude_code = codes "claude"
label codex = codes "codex"
label pi = codes "pi"
label open_code = codes "opencode"
label cursor_agent = codes "cursor"
label droid = codes "droid"
label amp = codes "amp"

abbrev pub agent_label : Option AgentKind → List ℕ
agent_label none = []
agent_label (some a) = codes " (" ++ label a ++ codes ")"

abbrev pub state_text : Option PaneStateKind → Option (List ℕ × ToastKind)
state_text (some waiting_input) = some (codes "Waiting for input", warn)
state_text (some done) = some (codes "Done", success)
state_text (some crashed) = some (codes "Failed", error)
state_text _ = none

abbrev pub event_text : PaneEventKind → Option PaneStateKind → Option (List ℕ × ToastKind)
event_text spawned state = some (codes "Spawned", info)
event_text closed state = some (codes "Closed", info)
event_text state_changed state = state_text state
event_text layout_changed state = none

abbrev pub with_title : (title : List ℕ) (now ttl : ℕ) → Option (List ℕ × ToastKind) → Option Toast
with_title title now ttl none = none
with_title title now ttl (some (body, kind)) =
    some (record { title = title; body = body; kind = kind; born_at = now; ttl = ttl })

unfoldable pub pane_event_to_toast : (ℕ → List ℕ) → PaneEvent → ℕ → ℕ → Option Toast
pane_event_to_toast short event now ttl =
    with_title (short event.pane_id ++ agent_label event.agent) now ttl
      (event_text event.kind event.state)

-- What a client does with its deck.
pub data DeckOp : Type 0 where
  show : (now : ℕ) (title body : List ℕ) (kind : ToastKind) → DeckOp
  expire : (now : ℕ) → DeckOp

unfoldable pub run : ToastDeck → List DeckOp → ToastDeck
run deck [] = deck
run deck (show now title body kind ∷ ops) = run (push deck now title body kind) ops
run deck (expire now ∷ ops) = run (tick deck now) ops
