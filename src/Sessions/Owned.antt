-- ===== src/Sessions/Owned.antt =====
-- Every operation keeps the registry regular.
use pyre.Prelude.{ℕ, refl, sym, inl, inr, Bool, true}
use pyre.Prelude.{Bool-cases, List, Option, none, some}
use pyre.Prelude.{find?, is_empty}
use pyre.Layout.Tree.{LayoutNode, Orient}
use pyre.Sessions.State.{
  Pane, Window, Session, Registry, Result, ok, err, emit, get_session, get_pane, is_window,
  change_session, change_window, put_layout, evict_found, evict_session_if_empty,
}
use pyre.Sessions.Panes.{
  shell_or, OpenPaneReq, Spawn, init_layout, register_pane, save_session, save_pane, open_started,
  open_at, open_in, open_pane, prune_tree, prune_layout, close_found, close_pane_at, close_pane,
  split_layout, split_opened, split_in, split_at, open_pane_split, mirror, remove_from,
  target_window, insert_pane,
}
use pyre.Sessions.Windows.{weigh_tree, weigh_window, weigh_at, set_pane_weight}
use pyre.Sessions.Regular.{
  IsRegular, change_session-IsRegular, filter-IsRegular, change_window-IsSound, remove_from-IsSound,
  insert_pane-IsSound,
}

-- A new tree in one window of one session.
put_layout-IsRegular :
    (ss : List Session) (session window : ℕ) (tree : LayoutNode)
    → IsRegular ss
    → IsRegular (change_session (change_window (put_layout tree) window) session ss)
put_layout-IsRegular ss session window tree h =
    change_session-IsRegular (change_window (put_layout tree) window) session ss (λ x. refl)
      (λ x e hx. change_window-IsSound (put_layout tree) window x (λ w. refl) hx) h

init_layout-IsRegular :
    (r : Registry) (session window pane : ℕ) (o : Option LayoutNode)
    → IsRegular r.sessions
    → IsRegular (init_layout r session window pane o).sessions
unfolding init_layout
init_layout-IsRegular r session window pane (some tree) h = h
init_layout-IsRegular r session window pane none h =
    put_layout-IsRegular r.sessions session window _ h

register_pane-IsRegular :
    (r : Registry) (s : Session) (w : Window) (req : OpenPaneReq) (spawn : Spawn)
    → IsRegular r.sessions
    → IsRegular (register_pane r s w req spawn).sessions
unfolding register_pane emit
register_pane-IsRegular r s w req spawn h = init_layout-IsRegular _ s.id w.id spawn.id w.layout (
    change_session-IsRegular (insert_pane pane spawn.now) s.id r.sessions (λ x. refl)
      (λ x e hx. insert_pane-IsSound pane spawn.now x (sym e) hx) h)
  where
    pane : Pane
    pane = record {
      id = spawn.id;
      session = s.id;
      window = w.id;
      name = req.name;
      cols = req.cols;
      rows = req.rows;
      shell = shell_or req.shell spawn.default_shell;
    }

open_started-IsRegular :
    (r : Registry) (s : Session) (req : OpenPaneReq) (spawn : Spawn) (w : Window)
    → IsRegular r.sessions
    → IsRegular (open_started r s req spawn w).0.sessions
unfolding open_started save_session save_pane
open_started-IsRegular r s req spawn w h = elim (Bool-cases spawn.session_saved) [
  | inr a ↦ rw a h
  | inl a ↦ elim (Bool-cases spawn.pane_saved) [
    | inr b ↦ rw (a, b) h
    | inl b ↦ simp (a, b) (register_pane-IsRegular _ s w req spawn h)
  ]
]

pub open_in-IsRegular :
    (r : Registry) (id : ℕ) (req : OpenPaneReq) (spawn : Spawn) (o : Option Session)
    → IsRegular r.sessions
    → IsRegular (open_in r id req spawn o).0.sessions
unfolding open_in open_at
open_in-IsRegular r id req spawn none h = h
open_in-IsRegular r id req spawn (some s) h = go (target_window s.windows req.window)
  where
    go : (o : Option Window) → IsRegular (open_at r s req spawn o).0.sessions
    go none = h
    go (some w) = elim (Bool-cases spawn.started) [
      | inl e ↦ simp e (open_started-IsRegular r s req spawn w h)
      | inr e ↦ rw e h
    ]

prune_layout-IsRegular :
    (r : Registry) (session pane : ℕ) (o : Option Window)
    → IsRegular r.sessions
    → IsRegular (prune_layout r session pane true o).sessions
unfolding prune_layout prune_tree emit
prune_layout-IsRegular r session pane none h = h
prune_layout-IsRegular r session pane (some w) h = go w.layout
  where
    go : (o : Option LayoutNode) → IsRegular (prune_tree r session w.id pane true o).sessions
    go none = h
    go (some tree) = put_layout-IsRegular r.sessions session w.id _ h

evict-IsRegular :
    (r : Registry) (id : ℕ)
    → IsRegular r.sessions
    → IsRegular (evict_session_if_empty r id).sessions
unfolding evict_session_if_empty evict_found
evict-IsRegular r id h = go (get_session r id)
  where
    go : (o : Option Session) → IsRegular (evict_found r id o).sessions
    go none = h
    go (some s) = elim (Bool-cases (is_empty s.panes)) [
      | inl e ↦ rw e (filter-IsRegular _ r.sessions h)
      | inr e ↦ rw e h
    ]

remove_from-IsRegular :
    (ss : List Session) (session pane : ℕ)
    → IsRegular ss
    → IsRegular (change_session (remove_from pane) session ss)
remove_from-IsRegular ss session pane h =
    change_session-IsRegular (remove_from pane) session ss (λ x. refl)
      (λ x e hx. remove_from-IsSound pane x hx) h

close_found-IsRegular :
    (r : Registry) (s : Session) (p : Pane)
    → IsRegular r.sessions
    → IsRegular (close_found r s p true).sessions
unfolding close_found emit
close_found-IsRegular r s p h =
    evict-IsRegular (prune_layout removed s.id p.id true (find? (is_window p.window) s.windows))
      s.id
      (prune_layout-IsRegular removed s.id p.id _ (remove_from-IsRegular r.sessions s.id p.id h))
  where
    removed : Registry
    removed = record r { sessions = change_session (remove_from p.id) s.id r.sessions }

pub close_pane-IsRegular :
    (r : Registry) (pane : ℕ) (killed : ℕ → Bool)
    → IsRegular r.sessions
    → IsRegular (close_pane r pane killed true).0.sessions
unfolding close_pane close_pane_at
close_pane-IsRegular r pane killed h = go (get_pane r pane)
  where
    go : (o : Option (Session × Pane)) → IsRegular (close_pane_at r pane killed true o).0.sessions
    go none = h
    go (some (s, p)) = elim (Bool-cases (killed pane)) [
      | inl e ↦ rw e (close_found-IsRegular r s p h)
      | inr e ↦ rw e h
    ]

split_opened-IsRegular :
    (session window parent : ℕ) (orient : Orient) (o : Registry × Result ℕ)
    → IsRegular o.0.sessions
    → IsRegular (split_opened session window parent orient o).0.sessions
unfolding split_opened split_layout emit
split_opened-IsRegular session window parent orient (r, err e) h = h
split_opened-IsRegular session window parent orient (r, ok pane) h =
    put_layout-IsRegular r.sessions session window _ h

pub open_pane_split-IsRegular :
    (r : Registry) (parent : ℕ) (orient : Orient) (name cmd : Option (List ℕ)) (spawn : Spawn)
    → IsRegular r.sessions
    → IsRegular (open_pane_split r parent orient name cmd spawn).0.sessions
unfolding open_pane_split split_at split_in open_pane
open_pane_split-IsRegular r parent orient name cmd spawn h = go (get_pane r parent)
  where
    within :
        (s : Session) (p : Pane) (o : Option Window)
        → IsRegular (split_in r s p orient (mirror p name cmd) spawn o).0.sessions
    within s p none = h
    within s p (some w) =
        split_opened-IsRegular s.id w.id p.id orient _
          (open_in-IsRegular r s.id (mirror p name cmd) spawn _ h)

    go :
        (o : Option (Session × Pane))
        → IsRegular (split_at r parent orient name cmd spawn o).0.sessions
    go none = h
    go (some (s, p)) = within s p (find? (is_window p.window) s.windows)

pub set_pane_weight-IsRegular :
    (r : Registry) (pane weight : ℕ) (written : Bool)
    → IsRegular r.sessions
    → IsRegular (set_pane_weight r pane weight written).0.sessions
unfolding set_pane_weight weigh_at weigh_window weigh_tree emit
set_pane_weight-IsRegular r pane weight written h = go (get_pane r pane)
  where
    tree_of :
        (s : Session) (p : Pane) (w : Window) (o : Option LayoutNode)
        → IsRegular (weigh_tree r s.id w.id p.id weight written o).0.sessions
    tree_of s p w none = h
    tree_of s p w (some tree) = elim (Bool-cases written) [
      | inl e ↦ rw e (put_layout-IsRegular r.sessions s.id w.id _ h)
      | inr e ↦ rw e (put_layout-IsRegular r.sessions s.id w.id _ h)
    ]

    within :
        (s : Session) (p : Pane) (o : Option Window)
        → IsRegular (weigh_window r s p weight written o).0.sessions
    within s p none = h
    within s p (some w) = tree_of s p w w.layout

    go : (o : Option (Session × Pane)) → IsRegular (weigh_at r pane weight written o).0.sessions
    go none = h
    go (some (s, p)) = within s p (find? (is_window p.window) s.windows)
