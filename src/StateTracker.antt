-- ===== src/StateTracker.antt =====
-- The state tracker of a pane (crates/pyred/src/state.rs): how the daemon tells what a pane is
-- doing. A time is a number of nanoseconds, and one evaluation reads the clock once. Whether the
-- process is alive is the operating system's answer, an argument; a text is the list of its bytes.
pub mod Changes
pub mod Override
pub mod Windows
use pyre.Prelude.{ℕ, ◌+◌, ◌-◌, ◌*◌, Bool, true, false, List, [], ◌∷◌, Option, none, some}
use pyre.Prelude.{not, ◌&&◌, ltb, ◌==◌, if◌then◌else◌}
use pyre.Prelude.Int.{ℤ, pos, negsuc}
use pyre.Prelude.Text.{codes, one_of, rsplit_next}
use pyre.Proto.{
  AgentKind, unknown, shell, PaneStateKind, running, waiting_input, idle, interactive, crashed,
  done, same_state,
}

pub data Osc133Marker : Type 0 where
  marker_a : Osc133Marker
  marker_b : Osc133Marker
  marker_c : Osc133Marker
  marker_d : (exit_code : Option ℤ) → Osc133Marker

abbrev pub seconds : ℕ → ℕ
seconds n = n * 1000000000

abbrev pub agent_idle_secs : ℕ
agent_idle_secs = 15

unfoldable pub is_interactive : List ℕ → Bool
is_interactive name =
    one_of
      ("vim" ∷ "nvim" ∷ "vi" ∷ "less" ∷ "more" ∷ "top" ∷ "htop" ∷ "btop" ∷ "man" ∷ "nano" ∷ "emacs"
        ∷ "emacs-nox" ∷ "helix" ∷ "hx" ∷ "lazygit" ∷ "fzf" ∷ "ranger" ∷ "nnn" ∷ "mc" ∷ [])
      name

unfoldable pub is_shell : List ℕ → Bool
is_shell name = one_of ("bash" ∷ "zsh" ∷ "fish" ∷ "sh" ∷ "dash" ∷ "ksh" ∷ "tcsh" ∷ "csh" ∷ []) name

-- `watched` is what the watch channel was last sent.
pub record PaneStateTracker : Type 0 where
  pub state : PaneStateKind
  pub reason : List ℕ
  pub last_output_at : ℕ
  pub last_marker : Option Osc133Marker
  pub last_d_at : Option ℕ
  pub foreground_cmd : Option (List ℕ)
  pub agent : AgentKind
  pub seen : Bool
  pub root_pid : ℕ
  pub override_until : Option ℕ
  pub overridden_state : Option PaneStateKind
  pub overridden_reason : Option (List ℕ)
  pub watched : PaneStateKind

unfoldable pub new : ℕ → ℕ → PaneStateTracker
new now root_pid = record {
  state = running;
  reason = codes "init";
  last_output_at = now;
  last_marker = none;
  last_d_at = none;
  foreground_cmd = none;
  agent = unknown;
  seen = true;
  root_pid = root_pid;
  override_until = none;
  overridden_state = none;
  overridden_reason = none;
  watched = running;
}

unfoldable pub touch_output : PaneStateTracker → ℕ → PaneStateTracker
touch_output t now = record t { last_output_at = now }

abbrev pub marks_end : Osc133Marker → Bool
marks_end (marker_d _) = true
marks_end _ = false

unfoldable pub push_marker : PaneStateTracker → ℕ → Osc133Marker → PaneStateTracker
push_marker t now marker = record t {
  last_d_at = if marks_end marker then some now else t.last_d_at;
  last_marker = some marker;
}

-- `latest` is the last time that the clock can represent: the sum of a time and a duration panics
-- beyond it, which is `none` (what the panic leaves of the tracker is left out).
unfoldable pub set_override :
    ℕ → PaneStateTracker → ℕ → PaneStateKind → List ℕ → ℕ → Option PaneStateTracker
set_override latest t now state reason secs =
    if ltb latest (now + seconds secs)
    then none
    else some (record t {
      overridden_state = some state;
      overridden_reason = some reason;
      override_until = some (now + seconds secs);
    })

unfoldable pub mark_seen : PaneStateTracker → PaneStateTracker
mark_seen t = record t { seen = true }

unfoldable pub apply : PaneStateTracker → PaneStateKind → List ℕ → PaneStateTracker × Bool
apply t new_state new_reason = if same_state t.state new_state then (t, false) else (
  record t {
    seen = if same_state new_state done then false else t.seen;
    state = new_state;
    reason = new_reason;
    watched = new_state;
  },
  true,
)

-- The tests of `evaluate`, in its order.
abbrev pub failed_exit : Option ℤ → Bool
failed_exit none = false
failed_exit (some (pos c)) = not (c == 0)
failed_exit (some (negsuc c)) = true

abbrev pub exited_badly : Option Osc133Marker → Bool
exited_badly (some (marker_d exit_code)) = failed_exit exit_code
exited_badly _ = false

abbrev pub at_prompt : Option Osc133Marker → Bool
at_prompt (some marker_a) = true
at_prompt (some marker_b) = true
at_prompt _ = false

abbrev pub known_agent : AgentKind → Bool
known_agent unknown = false
known_agent shell = false
known_agent _ = true

abbrev pub foreground_base : Option (List ℕ) → List ℕ
foreground_base none = []
foreground_base (some cmd) = rsplit_next 47 cmd

abbrev pub quiet_after : Option ℕ → ℕ → ℕ → Bool
quiet_after none last_output now = false
quiet_after (some d_at) last_output now =
    ltb (seconds 5) (now - d_at) && ltb last_output (d_at + seconds 1)

unfoldable pub judge : PaneStateTracker → ℕ → Bool → PaneStateKind × List ℕ
judge t now alive =
    let base = foreground_base t.foreground_cmd in
    if ltb 0 t.root_pid && not alive
    then (if exited_badly t.last_marker
        then (crashed, codes "process exited non-zero")
        else (done, codes "process exited"))
    else if is_interactive base
    then (interactive, base)
    else if at_prompt t.last_marker && (ltb (seconds 2) (now - t.last_output_at) && is_shell base)
    then (waiting_input, codes "shell prompt, idle > 2s")
    else if known_agent t.agent && ltb (seconds agent_idle_secs) (now - t.last_output_at)
    then (waiting_input, codes "agent idle >15s")
    else if quiet_after t.last_d_at t.last_output_at now
    then (idle, codes "quiet after block end")
    else (running, codes "active")

abbrev pub or_running : Option PaneStateKind → PaneStateKind
or_running none = running
or_running (some s) = s

abbrev pub or_override : Option (List ℕ) → List ℕ
or_override none = codes "override"
or_override (some r) = r

unfoldable pub judged : PaneStateTracker → ℕ → Bool → PaneStateTracker × Bool
judged t now alive = apply t (judge t now alive).0 (judge t now alive).1

-- The branch on the override window.
unfoldable pub evaluate_in : PaneStateTracker → ℕ → Bool → Option ℕ → PaneStateTracker × Bool
evaluate_in t now alive none = judged t now alive
evaluate_in t now alive (some until) =
    if ltb now until
    then apply t (or_running t.overridden_state) (or_override t.overridden_reason)
    else judged
        (record t { override_until = none; overridden_state = none; overridden_reason = none }) now
        alive

unfoldable pub evaluate : PaneStateTracker → ℕ → Bool → PaneStateTracker × Bool
evaluate t now alive = evaluate_in t now alive t.override_until
