-- ===== src/StateTracker/Windows.antt =====
-- When a pane is said to wait for input (`evaluate` of crates/pyred/src/state.rs).
use pyre.Prelude.{ℕ, ◌+◌, ◌-◌, ◌≤◌, ◌<◌, ◌≡◌, refl, ap, ◌∙◌, inl, inr, Bool-cases, arith}
use pyre.Prelude.{
  Bool, true, false, not, ◌&&◌, List, Option, none, some, ltb, lt→ltb, if◌then◌else◌,
}
use pyre.Proto.{PaneStateKind, running, waiting_input, idle, same_state}
use pyre.StateTracker.{
  PaneStateTracker, seconds, agent_idle_secs, touch_output, judge, evaluate, known_agent,
  is_interactive, is_shell, at_prompt, exited_badly, quiet_after, foreground_base,
}
use pyre.StateTracker.Changes.{decided_in, state-evaluate}

busy_judge :
    (t : PaneStateTracker) (now later : ℕ) (alive : Bool)
    → later ≤ now + seconds 2
    → same_state (judge (touch_output t now) later alive).0 waiting_input ≡ false
unfolding judge touch_output
busy_judge t now later alive h = elim (Bool-cases (ltb 0 t.root_pid && not alive)) [
  | inl a ↦
      rw a
        (elim (Bool-cases (exited_badly t.last_marker)) [ inl b ↦ rw b refl | inr b ↦ rw b refl ])
  | inr a ↦ rw a (elim (Bool-cases (is_interactive (foreground_base t.foreground_cmd))) [
    | inl b ↦ rw b refl
    | inr b ↦ rw b (elim (Bool-cases (at_prompt t.last_marker)) [
      | inl c ↦
          rw (c, short, long)
            (settle (known_agent t.agent) (quiet_after t.last_d_at now later) _ _ _)
      | inr c ↦
          rw (c, long) (settle (known_agent t.agent) (quiet_after t.last_d_at now later) _ _ _)
    ])
  ])
]
  where
    short : ltb (seconds 2) (later - now) ≡ false
    short = ground (arith, h)

    long : ltb (seconds agent_idle_secs) (later - now) ≡ false
    long = ground (arith, h)

    verdict : Bool → Bool → List ℕ → List ℕ → List ℕ → PaneStateKind × List ℕ
    verdict k q x y z =
        if k && false then (waiting_input, x) else if q then (idle, y) else (running, z)

    settle : (k q : Bool) (x y z : List ℕ) → same_state (verdict k q x y z).0 waiting_input ≡ false
    settle true true x y z = refl
    settle true false x y z = refl
    settle false true x y z = refl
    settle false false x y z = refl

override-touch_output :
    (t : PaneStateTracker) (now : ℕ) → (touch_output t now).override_until ≡ t.override_until
unfolding touch_output
override-touch_output t now = refl

-- An override is in force until its time is reached.
abbrev pub in_force : Option ℕ → ℕ → Bool
in_force none now = false
in_force (some until) now = ltb now until

decided_in_free :
    (t : PaneStateTracker) (later : ℕ) (alive : Bool) (o : Option ℕ)
    → in_force o later ≡ false
    → decided_in t later alive o ≡ (judge t later alive).0
decided_in_free t later alive none h = refl
decided_in_free t later alive (some until) h = rw h refl

-- For two seconds after any output a pane is never said to wait for input, whatever the markers,
-- the foreground program and the agent are, where no override is set or its time is reached.
pub busy_after_output :
    (t : PaneStateTracker) (now later : ℕ) (alive : Bool)
    → in_force t.override_until later ≡ false
    → later ≤ now + seconds 2
    → same_state (evaluate (touch_output t now) later alive).0.state waiting_input ≡ false
busy_after_output t now later alive e h =
    ap (λ s. same_state s waiting_input) (state-evaluate (touch_output t now) later alive ∙ free)
    ∙ busy_judge t now later alive h
  where
    free :
        decided_in (touch_output t now) later alive (touch_output t now).override_until
        ≡ (judge (touch_output t now) later alive).0
    free =
        ap (decided_in (touch_output t now) later alive) (override-touch_output t now)
        ∙ decided_in_free (touch_output t now) later alive t.override_until e

silent_judge :
    (t : PaneStateTracker) (now : ℕ)
    → known_agent t.agent ≡ true
    → is_interactive (foreground_base t.foreground_cmd) ≡ false
    → t.last_output_at + seconds agent_idle_secs < now
    → (judge t now true).0 ≡ waiting_input
unfolding judge
silent_judge t now k i h =
    rw (alive, i)
      (elim (Bool-cases (
        at_prompt t.last_marker
        && (ltb (seconds 2) (now - t.last_output_at)
            && is_shell (foreground_base t.foreground_cmd)))) [
              | inl e ↦ rw e refl
              | inr e ↦
                  rw (e, k, lt→ltb (seconds 15) (now - t.last_output_at) (omega (arith, h))) refl
            ])
  where
    alive : (ltb 0 t.root_pid && false) ≡ false
    alive = elim (Bool-cases (ltb 0 t.root_pid)) [ inl e ↦ rw e refl | inr e ↦ rw e refl ]

-- A known agent whose process is alive and whose foreground program is not interactive is said to
-- wait for input once it was silent for more than 15 seconds, whatever the markers are, unless an
-- override is in force.
pub silent_agent_waits :
    (t : PaneStateTracker) (now : ℕ)
    → t.override_until ≡ none
    → known_agent t.agent ≡ true
    → is_interactive (foreground_base t.foreground_cmd) ≡ false
    → t.last_output_at + seconds agent_idle_secs < now
    → (evaluate t now true).0.state ≡ waiting_input
silent_agent_waits t now e k i h =
    state-evaluate t now true ∙ ap (decided_in t now true) {y = none} e ∙ silent_judge t now k i h
