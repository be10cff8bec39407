-- ===== src/Sessions/Opened.antt =====
-- What registering a pane and writing a new tree do to the session.
use pyre.Prelude.{ℕ, ◌≡◌, refl, sym, ap, ◌∙◌, true}
use pyre.Prelude.{subst, List, [], ◌∷◌, ◌++◌, append_assoc, some, find?}
use pyre.Prelude.{find?-map, ◌==◌}
use mathlib.Core.Option
use pyre.Layout.Tree.{LayoutNode, Orient}
use pyre.Layout.Edit
use pyre.Proto.{spawned, layout_changed}
use pyre.Sessions.State.{
  Pane, Window, Session, upsert_window_layout, assign_pane_window, announce, Registry, ok,
  get_session, is_session, is_window, change_session, change_window, put_layout, emit, or_else,
}
use pyre.Sessions.Panes.{
  shell_or, OpenPaneReq, Spawn, first_window, open_at, open_in, open_pane, open_started,
  save_session, save_pane, register_pane, init_layout, insert_pane, or_leaf, window_layout,
  session_layout, current_layout, split_layout,
}

-- The pane that a request for a window of a session makes.
abbrev pub requested : Session → Window → OpenPaneReq → Spawn → Pane
requested s w req spawn = record {
  id = spawn.id;
  session = s.id;
  window = w.id;
  name = req.name;
  cols = req.cols;
  rows = req.rows;
  shell = shell_or req.shell spawn.default_shell;
}

find?-change_session :
    (f : Session → Session) (id : ℕ) (ss : List Session) (s : Session)
    → ((x : Session) → (f x).id ≡ x.id)
    → find? (is_session id) ss ≡ some s
    → find? (is_session id) (change_session f id ss) ≡ some (f s)
find?-change_session f id ss s k found =
    find?-map (is_session id) f ss (λ x. ap (λ i. i == id) (k x)) ∙ ap (Option.map f) found

-- The rows leave the sessions as they are.
pub saved-session :
    (r : Registry) (s : Session) (req : OpenPaneReq) (spawn : Spawn) (id : ℕ)
    → get_session (save_pane (save_session r s) s req spawn) id ≡ get_session r id
unfolding save_pane save_session get_session
saved-session r s req spawn id = refl

-- In a window that has its layout the session gets the pane and nothing else.
pub register_pane-session :
    (r : Registry) (s : Session) (w : Window) (req : OpenPaneReq) (spawn : Spawn)
    (tree : LayoutNode)
    → get_session r s.id ≡ some s
    → w.layout ≡ some tree
    → (get_session (register_pane r s w req spawn) s.id
        ≡ some (insert_pane (requested s w req spawn) spawn.now s))
      × ((register_pane r s w req spawn).log
          ≡ r.log ++ (assign_pane_window spawn.id s.id w.id ∷ announce spawn.id spawned ∷ []))
unfolding register_pane emit get_session init_layout
register_pane-session r s w req spawn tree found laid =
    subst
      (λ o.
        (find? (is_session s.id) (init_layout registered s.id w.id spawn.id o).sessions
          ≡ some (insert_pane (requested s w req spawn) spawn.now s))
        × ((init_layout registered s.id w.id spawn.id o).log ++ (announce spawn.id spawned ∷ [])
            ≡ r.log ++ (assign_pane_window spawn.id s.id w.id ∷ announce spawn.id spawned ∷ [])))
      (sym laid)
      (find?-change_session _ s.id r.sessions s (λ x. refl) found, append_assoc r.log _ _)
  where
    registered : Registry
    registered = record r {
      sessions = change_session (insert_pane (requested s w req spawn) spawn.now) s.id r.sessions;
      log = r.log ++ (assign_pane_window spawn.id s.id w.id ∷ []);
    }

pub split_layout-session :
    (r : Registry) (s : Session) (w : Window) (parent pane : ℕ) (orient : Orient)
    (tree : LayoutNode)
    → get_session r s.id ≡ some s
    → find? (is_window w.id) s.windows ≡ some w
    → w.layout ≡ some tree
    → let split = Edit.split_focused tree parent pane orient in
      (get_session (split_layout r s.id w.id parent pane orient) s.id
        ≡ some (change_window (put_layout split) w.id s))
      × ((split_layout r s.id w.id parent pane orient).log
          ≡ (r.log ++ (upsert_window_layout w.id split ∷ []))
            ++ (announce pane layout_changed ∷ []))
unfolding split_layout emit get_session
split_layout-session r s w parent pane orient tree found here laid =
    subst
      (λ o.
        let split = Edit.split_focused (or_leaf parent o) parent pane orient in
        (find? (is_session s.id)
            (change_session (change_window (put_layout split) w.id) s.id r.sessions)
          ≡ some (change_window (put_layout (Edit.split_focused tree parent pane orient)) w.id s))
        × ((r.log ++ (upsert_window_layout w.id split ∷ [])) ++ (announce pane layout_changed ∷ [])
            ≡ (r.log
                ++ (upsert_window_layout w.id (Edit.split_focused tree parent pane orient) ∷ []))
              ++ (announce pane layout_changed ∷ [])))
      (sym current) (find?-change_session _ s.id r.sessions s (λ x. refl) found, refl)
  where
    current : current_layout r s.id w.id ≡ some tree
    current = ap (session_layout w.id) found ∙ ap window_layout here ∙ laid

pub open_pane_found :
    (r : Registry) (s : Session) (w : Window) (req : OpenPaneReq) (spawn : Spawn)
    → get_session r s.id ≡ some s
    → find? (is_window req.window) s.windows ≡ some w
    → spawn.started ≡ true
    → spawn.session_saved ≡ true
    → spawn.pane_saved ≡ true
    → open_pane r s.id req spawn
      ≡ (register_pane (save_pane (save_session r s) s req spawn) s w req spawn, ok spawn.id)
unfolding open_pane open_in open_at open_started
open_pane_found r s w req spawn found here started session_saved pane_saved =
    ap (open_in r s.id req spawn) found
    ∙ ap (open_at r s req spawn) (ap (λ o. or_else o (first_window s.windows)) here)
    ∙ simp (started, session_saved, pane_saved) refl
