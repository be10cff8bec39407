-- ===== src/Sessions/Lookup.antt =====
-- What the lookups of a registry that the operations built promise.
use pyre.Prelude.{ℕ, ◌≡◌, refl, sym, inl, inr, arith, true, false}
use pyre.Prelude.{Bool-cases, ==_iff, ==_refl, subst, List, [], ◌∷◌}
use pyre.Prelude.{
  Option, none, some, find?, find?-cons, find?-here, all-found, none_found, any, is_empty, ◌==◌,
}
use mathlib.Core.Option
use pyre.Sessions.State.{
  Pane, Window, Session, ok, new, get_session, get_pane, find_pane, with_session, or_else,
  is_session, is_pane, is_window,
}
use pyre.Sessions.Panes.{
  OpenPaneReq, Spawn, target_window, open_started, open_at, open_in, open_pane,
}
use pyre.Sessions.Ops.{Op, run_ops}
use pyre.Sessions.Regular.{IsSound, IsRegular}
use pyre.Sessions.Kept.{run_ops-IsRegular}

find_pane_lem :
    (ss : List Session) (id : ℕ) (s : Session) (p : Pane)
    → IsRegular ss
    → find_pane ss id ≡ some (s, p)
    → (find? (is_pane id) s.panes ≡ some p) × (find? (is_session s.id) ss ≡ some s) × IsSound s
unfolding find_pane
find_pane_lem [] id s p h e = absurd (ground (arith, e))
find_pane_lem (x ∷ ss) id s p (hx, absent, hs) e =
    go (find? (is_pane id) x.panes) refl (λ k. find_pane_lem ss id s p hs k) e
  where
    go :
        (o : Option Pane)
        → find? (is_pane id) x.panes ≡ o
        → (find_pane ss id ≡ some (s, p)
            → (find? (is_pane id) s.panes ≡ some p)
              × (find? (is_session s.id) ss ≡ some s)
              × IsSound s)
        → or_else (with_session x o) (find_pane ss id) ≡ some (s, p)
        → (find? (is_pane id) s.panes ≡ some p)
          × (find? (is_session s.id) (x ∷ ss) ≡ some s)
          × IsSound s
    go (some q) found later h =
        let same : (x, q) ≡ (s, p) = Option.some-injective (x, q) (s, p) h in
        subst
          (λ (y : Session × Pane).
            (find? (is_pane id) y.0.panes ≡ some y.1)
            × (find? (is_session y.0.id) (x ∷ ss) ≡ some y.0)
            × IsSound y.0)
          same (found, rw (==_refl x.id) refl, hx)
    go none found later h =
        let (pane_found, session_found, sound) = later h in
        (
          pane_found,
          elim (Bool-cases (is_session s.id x)) [
            | inl y ↦ absurd (
                none_found (is_session s.id) ss s
                  (subst (λ i. any (is_session i) ss ≡ false) ((==_iff x.id s.id).0 y) absent)
                  session_found)
            | inr y ↦ rw y session_found
          ],
          sound,
        )

-- A pane that a lookup finds has that id, is held by the session that it names, and that session is
-- the one that its id finds, after any operations on a new registry.
pub run_ops-get_pane :
    (ops : List Op) (id : ℕ) (s : Session) (p : Pane)
    → get_pane (run_ops new ops) id ≡ some (s, p)
    → (p.id ≡ id) × (p.session ≡ s.id) × (get_session (run_ops new ops) s.id ≡ some s)
unfolding get_pane get_session new
run_ops-get_pane ops id s p e =
    let (pane_found, session_found, sound) =
      find_pane_lem (run_ops new ops).sessions id s p (run_ops-IsRegular new ops tt) e in
    (
      (==_iff p.id id).0 (find?-here (is_pane id) s.panes p pane_found),
      (==_iff p.session s.id).0
          (all-found (λ q. q.session == s.id) (is_pane id) s.panes p sound.panes_own pane_found),
      session_found,
    )

regular-found :
    (ss : List Session) (id : ℕ) (s : Session)
    → IsRegular ss
    → find? (is_session id) ss ≡ some s
    → IsSound s
regular-found [] id s h e = absurd (ground (arith, e))
regular-found (x ∷ ss) id s (hx, absent, hs) e = elim (find?-cons (is_session id) x ss s e) [
  | inl (y, same) ↦ subst IsSound same hx
  | inr (y, later) ↦ regular-found ss id s hs later
]

target_window-some :
    (ws : List Window) (id : ℕ)
    → is_empty ws ≡ false
    → (w : Window) × (target_window ws id ≡ some w)
target_window-some [] id h = absurd (ground (arith, h))
target_window-some (w ∷ ws) id h = go (find? (is_window id) (w ∷ ws))
  where
    go : (o : Option Window) → (x : Window) × (or_else o (some w) ≡ some x)
    go (some x) = (x, refl)
    go none = (w, refl)

-- After any operations on a new registry, a pane can be opened in every session that there is:
-- where the process starts and the store takes the rows of the session and of the pane, the answer
-- is the new pane, whether or not the requested window exists.
pub run_ops-open_pane :
    (ops : List Op) (id : ℕ) (s : Session) (req : OpenPaneReq) (spawn : Spawn)
    → get_session (run_ops new ops) id ≡ some s
    → spawn.started ≡ true
    → spawn.session_saved ≡ true
    → spawn.pane_saved ≡ true
    → (open_pane (run_ops new ops) id req spawn).1 ≡ ok spawn.id
unfolding open_pane get_session new open_in open_at open_started
run_ops-open_pane ops id s req spawn found started session_saved pane_saved =
    rw found (opened (target_window-some s.windows req.window sound.windows_ne))
  where
    sound : IsSound s
    sound = regular-found (run_ops new ops).sessions id s (run_ops-IsRegular new ops tt) found

    opened :
        ((w : Window) × (target_window s.windows req.window ≡ some w))
        → (open_in (run_ops new ops) id req spawn (some s)).1 ≡ ok spawn.id
    opened (w, e) =
        subst (λ o. (open_at (run_ops new ops) s req spawn o).1 ≡ ok spawn.id) (sym e)
          (simp (started, session_saved, pane_saved) refl)
