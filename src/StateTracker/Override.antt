-- ===== src/StateTracker/Override.antt =====
-- How long an override holds (`set_override` of crates/pyred/src/state.rs).
use pyre.Prelude.{ℕ, ◌+◌, ◌≡◌, refl, ap, ◌∙◌, inl, inr, Bool-cases, arith}
use mathlib.Core.Option
use pyre.Prelude.{Bool, true, false, List, [], ◌∷◌, Option, none, some, ltb, if◌then◌else◌}
use pyre.Prelude.{all, sym, subst}
use pyre.Proto.{AgentKind, PaneStateKind, same_state}
use pyre.StateTracker.{
  PaneStateTracker, Osc133Marker, push_marker, mark_seen, apply, evaluate_in, or_running, seconds,
  touch_output, set_override, judge, evaluate,
}
use pyre.StateTracker.Changes.{decided_in, state-evaluate}

-- What may happen to a tracker but a new override: an evaluation, output, a marker, a client that
-- looked at the pane, and a foreground program that the engine found.
pub data Change : Type 0 where
  looked : (now : ℕ) (alive : Bool) → Change
  wrote : (now : ℕ) → Change
  marked : (now : ℕ) (marker : Osc133Marker) → Change
  visited : Change
  found : (cmd : Option (List ℕ)) (agent : AgentKind) → Change

unfoldable pub change : PaneStateTracker → Change → PaneStateTracker
change t (looked now alive) = (evaluate t now alive).0
change t (wrote now) = touch_output t now
change t (marked now marker) = push_marker t now marker
change t visited = mark_seen t
change t (found cmd agent) = record t { foreground_cmd = cmd; agent = agent }

unfoldable pub change_all : PaneStateTracker → List Change → PaneStateTracker
change_all t [] = t
change_all t (c ∷ cs) = change_all (change t c) cs

-- Every evaluation among the changes comes before `until`.
abbrev comes_before : ℕ → Change → Bool
comes_before until (looked now alive) = ltb now until
comes_before until _ = true

abbrev pub all_before : ℕ → List Change → Bool
all_before until cs = all (comes_before until) cs

-- The override is in the tracker.
record Overridden (until : ℕ) (state : PaneStateKind) (t : PaneStateTracker) : Type 0 where
  until_eq : t.override_until ≡ some until
  state_eq : t.overridden_state ≡ some state

apply-Overridden :
    (until : ℕ) (state : PaneStateKind) (t : PaneStateTracker) (s : PaneStateKind) (r : List ℕ)
    → Overridden until state t
    → Overridden until state (apply t s r).0
unfolding apply
apply-Overridden until state t s r h = elim (Bool-cases (same_state t.state s)) [
  | inl e ↦ rw e h
  | inr e ↦ rw e (record { until_eq = h.until_eq; state_eq = h.state_eq })
]

-- An evaluation inside the window leaves the override in force for the next one.
evaluate-Overridden :
    (until : ℕ) (state : PaneStateKind) (t : PaneStateTracker) (now : ℕ) (alive : Bool)
    → ltb now until ≡ true
    → Overridden until state t
    → Overridden until state (evaluate t now alive).0
unfolding evaluate evaluate_in
evaluate-Overridden until state t now alive e h =
    subst (λ o. Overridden until state (evaluate_in t now alive o).0) (sym h.until_eq)
      (rw e (apply-Overridden until state t _ _ h))

change-Overridden :
    (until : ℕ) (state : PaneStateKind) (t : PaneStateTracker) (c : Change)
    → comes_before until c ≡ true
    → Overridden until state t
    → Overridden until state (change t c)
unfolding change touch_output push_marker mark_seen
change-Overridden until state t (looked now alive) e h =
    evaluate-Overridden until state t now alive e h
change-Overridden until state t (wrote now) e h = record {
  until_eq = h.until_eq;
  state_eq = h.state_eq;
}
change-Overridden until state t (marked now marker) e h = record {
  until_eq = h.until_eq;
  state_eq = h.state_eq;
}
change-Overridden until state t visited e h = record {
  until_eq = h.until_eq;
  state_eq = h.state_eq;
}
change-Overridden until state t (found cmd agent) e h = record {
  until_eq = h.until_eq;
  state_eq = h.state_eq;
}

change_all-Overridden :
    (until : ℕ) (state : PaneStateKind) (t : PaneStateTracker) (cs : List Change)
    → all_before until cs ≡ true
    → Overridden until state t
    → Overridden until state (change_all t cs)
unfolding change_all
change_all-Overridden until state t [] e h = h
change_all-Overridden until state t (c ∷ cs) e h =
    let now : comes_before until c ≡ true = ground (arith, e) in
    let later : all_before until cs ≡ true = ground (arith, e) in
    change_all-Overridden until state (change t c) cs later
      (change-Overridden until state t c now h)

set_override-Overridden :
    (latest : ℕ) (t set : PaneStateTracker) (now : ℕ) (state : PaneStateKind) (reason : List ℕ)
    (secs : ℕ)
    → set_override latest t now state reason secs ≡ some set
    → Overridden (now + seconds secs) state set
unfolding set_override
set_override-Overridden latest t set now state reason secs h =
    go (ltb latest (now + seconds secs)) h
  where
    made : PaneStateTracker
    made = record t {
      overridden_state = some state;
      overridden_reason = some reason;
      override_until = some (now + seconds secs);
    }

    go :
        (c : Bool)
        → (if c then none else some made) ≡ some set
        → Overridden (now + seconds secs) state set
    go true e = absurd (ground (arith, e))
    go false e =
        subst (Overridden (now + seconds secs) state) (Option.some-injective made set e)
          (record { until_eq = refl; state_eq = refl })

-- After an override, and any number of evaluations inside its window, outputs, markers, visits and
-- changes of the foreground program, an evaluation that comes less than `secs` seconds after the
-- override gives the pane the given state, and a later one the state that the heuristic finds.
pub evaluate-set_override :
    (latest : ℕ) (t set : PaneStateTracker) (now : ℕ) (state : PaneStateKind) (reason : List ℕ)
    (secs : ℕ) (changes : List Change) (later : ℕ) (alive : Bool)
    → set_override latest t now state reason secs ≡ some set
    → all_before (now + seconds secs) changes ≡ true
    → (evaluate (change_all set changes) later alive).0.state ≡ (
        if ltb later (now + seconds secs)
        then state
        else (judge (change_all set changes) later alive).0)
evaluate-set_override latest t set now state reason secs changes later alive made early =
    state-evaluate t' later alive
    ∙ ap (decided_in t' later alive) kept.until_eq
    ∙ ap (λ o. if ltb later (now + seconds secs) then or_running o else (judge t' later alive).0)
        kept.state_eq
  where
    t' : PaneStateTracker
    t' = change_all set changes

    kept : Overridden (now + seconds secs) state t'
    kept =
        change_all-Overridden (now + seconds secs) state set changes early
          (set_override-Overridden latest t set now state reason secs made)
