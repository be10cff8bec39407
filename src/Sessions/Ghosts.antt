-- ===== src/Sessions/Ghosts.antt =====
-- What the end of a pane's process leaves in the windows of its session.
use pyre.Prelude.{ℕ, ◌≡◌, refl, sym, ap, inl, inr, arith, Bool, true, false, if◌then◌else◌}
use pyre.Prelude.{Bool-cases, ==_iff, subst, List, [], ◌∷◌, some, find?, any}
use pyre.Prelude.{find?-cons, none_found, is_empty}
use pyre.Sessions.State.{Session, new, get_session, is_session, is_pane, emit}
use pyre.Sessions.Panes.{remove_from}
use pyre.Sessions.Exits.{without_pane, remove_pane}
use pyre.Sessions.Ops.{Op, run_ops}
use pyre.Sessions.Regular.{IsRegular}
use pyre.Sessions.Kept.{run_ops-IsRegular}

-- The session that the id found before the walk, with the windows that it has after it.
abbrev WasThere : List Session → ℕ → Session → Type 0
WasThere ss id after =
    (s : Session) × (find? (is_session id) ss ≡ some s) × (after.windows ≡ s.windows)

behind_head :
    (x : Session) (ss : List Session) (id : ℕ) (after : Session)
    → (is_session id x ≡ false)
    → WasThere ss id after
    → WasThere (x ∷ ss) id after
behind_head x ss id after other (s, found, same) = (s, rw other found, same)

without_pane-WasThere :
    (ss : List Session) (pane id : ℕ) (after : Session)
    → IsRegular ss
    → find? (is_session id) (without_pane ss pane) ≡ some after
    → WasThere ss id after
unfolding without_pane
without_pane-WasThere [] pane id after h e = absurd (ground (arith, e))
without_pane-WasThere (x ∷ ss) pane id after (hx, absent, hs) e =
    go (any (is_pane pane) x.panes) (is_empty (remove_from pane x).panes)
      (λ k. without_pane-WasThere ss pane id after hs k) e
  where
    behind : find? (is_session id) ss ≡ some after → WasThere (x ∷ ss) id after
    behind found = elim (Bool-cases (is_session id x)) [
      | inl y ↦ absurd (
          none_found (is_session id) ss after
            (subst (λ i. any (is_session i) ss ≡ false) ((==_iff x.id id).0 y) absent) found)
      | inr y ↦ behind_head x ss id after y (after, found, refl)
    ]

    go :
        (has empty : Bool)
        → (find? (is_session id) (without_pane ss pane) ≡ some after → WasThere ss id after)
        → find? (is_session id) (
            if has
            then (if empty then ss else remove_from pane x ∷ ss)
            else x ∷ without_pane ss pane)
          ≡ some after
        → WasThere (x ∷ ss) id after
    go true true rest k = behind k
    go true false rest k = elim (find?-cons (is_session id) (remove_from pane x) ss after k) [
      | inl (y, same) ↦ (x, rw y refl, ap (λ s. s.windows) (sym same))
      | inr (y, later) ↦ behind later
    ]
    go false empty rest k = elim (find?-cons (is_session id) x (without_pane ss pane) after k) [
      | inl (y, same) ↦ (x, rw y refl, ap (λ s. s.windows) (sym same))
      | inr (y, later) ↦ behind_head x ss id after y (rest later)
    ]

-- After any operations on a new registry, the end of a pane's process leaves the windows of every
-- session that remains, with their layouts, as they were: the pane's leaf stays in its tree.
pub run_ops-remove_pane :
    (ops : List Op) (pane id : ℕ) (after : Session)
    → get_session (remove_pane (run_ops new ops) pane) id ≡ some after
    → (s : Session) × (get_session (run_ops new ops) id ≡ some s) × (after.windows ≡ s.windows)
unfolding get_session remove_pane emit new
run_ops-remove_pane ops pane id after e =
    without_pane-WasThere (run_ops new ops).sessions pane id after (run_ops-IsRegular new ops tt) e
