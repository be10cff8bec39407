-- ===== src/Sessions/Renamed.antt =====
-- Renaming keeps the registry regular.
use pyre.Prelude.{ℕ, ◌≡◌, refl, inl, inr, Bool, if◌then◌else◌}
use pyre.Prelude.{Bool-cases, List, Option, none, some}
use pyre.Prelude.{◌==◌, all-map}
use pyre.Prelude.{map}
use pyre.Sessions.State.{Pane, Window, Session, Registry, is_pane, change_session, change_window}
use pyre.Sessions.Windows.{rename_window_at, rename_pane_at, rename_session_at}
use pyre.Sessions.Regular.{
  IsRegular, change_session-IsRegular, map-IsRegular, change_window-IsSound,
}

pub rename_window_at-IsRegular :
    (r : Registry) (window : ℕ) (name : List ℕ) (written : Bool) (o : Option Window)
    → IsRegular r.sessions
    → IsRegular (rename_window_at r window name written o).0.sessions
unfolding rename_window_at
rename_window_at-IsRegular r window name written none h = h
rename_window_at-IsRegular r window name written (some w) h = elim (Bool-cases written) [
  | inl e ↦ rw e renamed
  | inr e ↦ rw e renamed
]
  where
    renamed :
        IsRegular (map (λ s. change_window (λ x. record x { name = name }) window s) r.sessions)
    renamed =
        map-IsRegular _ r.sessions (λ x. refl)
          (λ x hx. change_window-IsSound _ window x (λ w. refl) hx) h

pub rename_pane_at-IsRegular :
    (r : Registry) (pane : ℕ) (name : List ℕ) (written : Bool) (o : Option (Session × Pane))
    → IsRegular r.sessions
    → IsRegular (rename_pane_at r pane name written o).0.sessions
unfolding rename_pane_at
rename_pane_at-IsRegular r pane name written none h = h
rename_pane_at-IsRegular r pane name written (some (s, p)) h = elim (Bool-cases written) [
  | inl e ↦ rw e renamed
  | inr e ↦ rw e renamed
]
  where
    name_it : Pane → Pane
    name_it q = if is_pane pane q then record q { name = some name } else q

    keeps_session : (q : Pane) → (name_it q).session ≡ q.session
    keeps_session q = elim (Bool-cases (is_pane pane q)) [ inl e ↦ rw e refl | inr e ↦ rw e refl ]

    renamed :
        IsRegular (change_session (λ x. record x { panes = map name_it x.panes }) s.id r.sessions)
    renamed =
        change_session-IsRegular _ s.id r.sessions (λ x. refl)
          (λ x e hx. record {
            windows_ne = hx.windows_ne;
            windows_own = hx.windows_own;
            panes_own =
                all-map (λ q. q.session == x.id) name_it x.panes (λ q own. rw (keeps_session q) own)
                  hx.panes_own;
          })
          h

pub rename_session_at-IsRegular :
    (r : Registry) (id : ℕ) (name : List ℕ) (written : Bool) (o : Option Session)
    → IsRegular r.sessions
    → IsRegular (rename_session_at r id name written o).0.sessions
unfolding rename_session_at
rename_session_at-IsRegular r id name written none h = h
rename_session_at-IsRegular r id name written (some s) h = elim (Bool-cases written) [
  | inl e ↦ rw e renamed
  | inr e ↦ rw e renamed
]
  where
    renamed : IsRegular (change_session (λ x. record x { name = name }) id r.sessions)
    renamed =
        change_session-IsRegular _ id r.sessions (λ x. refl)
          (λ x e hx. record {
            windows_ne = hx.windows_ne;
            windows_own = hx.windows_own;
            panes_own = hx.panes_own;
          })
          h
