-- ===== src/StateTracker/Changes.antt =====
-- What an evaluation answers and what it leaves as it was.
use pyre.Prelude.{ℕ, ◌≡◌, refl, sym, ap, ◌∙◌, inl, inr, Bool-cases, arith}
use pyre.Prelude.{Bool, true, false, not, ◌&&◌, List, Option, none, some, ltb, if◌then◌else◌}
use pyre.Proto.{PaneStateKind, running, waiting_input, idle, interactive, crashed, done, same_state}
use pyre.StateTracker.{PaneStateTracker, apply, judge, judged, evaluate_in, evaluate, or_running}

pub same_state_sound : (a b : PaneStateKind) → same_state a b ≡ true → a ≡ b
same_state_sound running running h = refl
same_state_sound waiting_input waiting_input h = refl
same_state_sound idle idle h = refl
same_state_sound interactive interactive h = refl
same_state_sound crashed crashed h = refl
same_state_sound done done h = refl
same_state_sound _ _ h = absurd (ground arith)

same_state_refl : (a : PaneStateKind) → same_state a a ≡ true
same_state_refl running = refl
same_state_refl waiting_input = refl
same_state_refl idle = refl
same_state_refl interactive = refl
same_state_refl crashed = refl
same_state_refl done = refl

-- The outcome of an evaluation `o` of the tracker `t`.
pub record Reports (t : PaneStateTracker) (o : PaneStateTracker × Bool) : Type 0 where
  pub changed : o.1 ≡ not (same_state t.state o.0.state)
  pub seen : o.0.seen ≡ (if o.1 && same_state o.0.state done then false else t.seen)
  pub reason : (if o.1 then t.reason else o.0.reason) ≡ t.reason
  pub watched : o.0.watched ≡ (if o.1 then o.0.state else t.watched)

state-apply : (t : PaneStateTracker) (s : PaneStateKind) (r : List ℕ) → (apply t s r).0.state ≡ s
unfolding apply
state-apply t s r = elim (Bool-cases (same_state t.state s)) [
  | inl e ↦ rw e (same_state_sound t.state s e)
  | inr e ↦ rw e refl
]

apply-Reports : (t : PaneStateTracker) (s : PaneStateKind) (r : List ℕ) → Reports t (apply t s r)
unfolding apply
apply-Reports t s r = elim (Bool-cases (same_state t.state s)) [
  | inl e ↦ rw e (record {
    changed = sym (ap not (same_state_refl t.state));
    seen = refl;
    reason = refl;
    watched = refl;
  })
  | inr e ↦ rw e (record { changed = sym (ap not e); seen = refl; reason = refl; watched = refl })
]

-- The state that an evaluation decides on.
abbrev pub decided_in : PaneStateTracker → ℕ → Bool → Option ℕ → PaneStateKind
decided_in t now alive none = (judge t now alive).0
decided_in t now alive (some until) =
    if ltb now until then or_running t.overridden_state else (judge t now alive).0

pub judge_forgets :
    (t : PaneStateTracker) (now : ℕ) (alive : Bool)
    → judge
        (record t { override_until = none; overridden_state = none; overridden_reason = none })
        now
        alive
      ≡ judge t now alive
unfolding judge
judge_forgets t now alive = refl

pub state-evaluate :
    (t : PaneStateTracker) (now : ℕ) (alive : Bool)
    → (evaluate t now alive).0.state ≡ decided_in t now alive t.override_until
unfolding evaluate evaluate_in judged
state-evaluate t now alive = go t.override_until
  where
    go : (o : Option ℕ) → (evaluate_in t now alive o).0.state ≡ decided_in t now alive o
    go none = state-apply t _ _
    go (some until) = elim (Bool-cases (ltb now until)) [
      | inl e ↦ rw e (state-apply t _ _)
      | inr e ↦ rw e (state-apply _ _ _ ∙ ap (λ p. p.0) (judge_forgets t now alive))
    ]

cleared :
    (t : PaneStateTracker) (o : PaneStateTracker × Bool)
    → Reports
        (record t { override_until = none; overridden_state = none; overridden_reason = none })
        o
    → Reports t o
cleared t o r = record {
  changed = r.changed;
  seen = r.seen;
  reason = r.reason;
  watched = r.watched;
}

-- In every situation an evaluation answers true just where the state after it differs from the
-- one before; the reason is kept where it answers false; a change to Done clears `seen`, and nothing
-- else touches it; and the watch channel is sent the new state at each change and nothing else.
pub evaluate-Reports :
    (t : PaneStateTracker) (now : ℕ) (alive : Bool) → Reports t (evaluate t now alive)
unfolding evaluate evaluate_in judged
evaluate-Reports t now alive = go t.override_until
  where
    go : (o : Option ℕ) → Reports t (evaluate_in t now alive o)
    go none = apply-Reports t _ _
    go (some until) = elim (Bool-cases (ltb now until)) [
      | inl e ↦ rw e (apply-Reports t _ _)
      | inr e ↦ rw e (
          cleared t _ (
            apply-Reports
              (record t {
                override_until = none;
                overridden_state = none;
                overridden_reason = none;
              })
              _ _))
    ]
