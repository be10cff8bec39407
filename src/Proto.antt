-- ===== src/Proto.antt =====
-- The protocol's small enums (crates/pyre-proto/src/sessions.rs, service.rs and blocks.rs). A
-- `PaneId`, `SessionId` or `BlockId` is a UUID, here a number that is only compared.
use pyre.Prelude.{ℕ, Bool, true, false, Option, List}
use pyre.Prelude.Int.{ℤ}

pub data AgentKind : Type 0 where
  unknown : AgentKind
  shell : AgentKind
  claude_code : AgentKind
  codex : AgentKind
  pi : AgentKind
  open_code : AgentKind
  cursor_agent : AgentKind
  droid : AgentKind
  amp : AgentKind

pub data PaneStateKind : Type 0 where
  running : PaneStateKind
  waiting_input : PaneStateKind
  idle : PaneStateKind
  interactive : PaneStateKind
  crashed : PaneStateKind
  done : PaneStateKind

pub data PaneEventKind : Type 0 where
  spawned : PaneEventKind
  state_changed : PaneEventKind
  closed : PaneEventKind
  layout_changed : PaneEventKind

pub record PaneEvent : Type 0 where
  pub seq : ℕ
  pub pane_id : ℕ
  pub kind : PaneEventKind
  pub state : Option PaneStateKind
  pub agent : Option AgentKind

-- The derived `==` of a field-less enum.
abbrev pub same_state : PaneStateKind → PaneStateKind → Bool
same_state running running = true
same_state waiting_input waiting_input = true
same_state idle idle = true
same_state interactive interactive = true
same_state crashed crashed = true
same_state done done = true
same_state _ _ = false

-- An exit code is an `i32`; bytes are numbers.
pub data BlockEvent : Type 0 where
  prompt_start : (session : ℕ) → BlockEvent
  command_start : (session block : ℕ) (command : List ℕ) (cwd : Option (List ℕ)) → BlockEvent
  output_chunk : (block : ℕ) (data_ : List ℕ) → BlockEvent
  block_end : (block : ℕ) (exit_code : Option ℤ) → BlockEvent
