-- ===== src/Tests/TrackerRuns.antt =====
-- A pane in which the agent `claude` runs.
use pyre.Prelude.{◌≡◌, refl, true, false, none, some, [], ◌∷◌, arith}
use pyre.Prelude.Text.{codes}
use pyre.Proto.{claude_code, running, waiting_input, idle, done, same_state}
use pyre.StateTracker.{
  PaneStateTracker, marker_a, seconds, touch_output, set_override, judge, evaluate, evaluate_in,
  judged, apply, is_interactive,
}
use pyre.StateTracker.Changes.{Reports, evaluate-Reports}
use pyre.StateTracker.Override.{looked, wrote, change_all, evaluate-set_override}
use pyre.StateTracker.Windows.{busy_after_output, silent_agent_waits}

abbrev pane : PaneStateTracker
pane = record {
  state = running;
  reason = codes "init";
  last_output_at = 0;
  last_marker = some marker_a;
  last_d_at = none;
  foreground_cmd = some (codes "/usr/bin/claude");
  agent = claude_code;
  seen = true;
  root_pid = 4;
  override_until = none;
  overridden_state = none;
  overridden_reason = none;
  watched = running;
}

evaluate-Reports_example : Reports pane (evaluate pane (seconds 16) true)
evaluate-Reports_example = evaluate-Reports pane (seconds 16) true

abbrev by_hand : PaneStateTracker
by_hand = record pane {
  override_until = some (seconds 30);
  overridden_state = some idle;
  overridden_reason = some (codes "by hand");
}

overridden : set_override (seconds 1000000) pane 0 idle (codes "by hand") 30 ≡ some by_hand
unfolding set_override
overridden = refl

-- Two evaluations, with output between them, come before the one after twenty seconds.
evaluate-set_override_example :
    (evaluate
      (change_all by_hand
        (looked (seconds 1) true ∷ wrote (seconds 2) ∷ looked (seconds 3) true ∷ []))
      (seconds 20)
      true).0.state
    ≡ idle
evaluate-set_override_example =
    evaluate-set_override (seconds 1000000) pane by_hand 0 idle (codes "by hand") 30
      (looked (seconds 1) true ∷ wrote (seconds 2) ∷ looked (seconds 3) true ∷ []) (seconds 20) true
      overridden refl

-- The override of thirty seconds has run out.
busy_after_output_example :
    same_state
      (evaluate (touch_output by_hand (seconds 30)) (seconds 31) true).0.state
      waiting_input
    ≡ false
busy_after_output_example =
    busy_after_output by_hand (seconds 30) (seconds 31) true refl (omega arith)

silent_agent_waits_example : (evaluate pane (seconds 16) true).0.state ≡ waiting_input
unfolding is_interactive
silent_agent_waits_example = silent_agent_waits pane (seconds 16) refl refl refl (omega arith)

dead_pane : (evaluate pane (seconds 1) false).0.state ≡ done
unfolding evaluate evaluate_in judged judge apply
dead_pane = refl
