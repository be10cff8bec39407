-- ===== src/Sessions/PaneWrites.antt =====
-- What opening, splitting, weighing and closing a pane add to the effects of the registry.
use pyre.Prelude.{ℕ, ◌≡◌, refl, Bool, true}
use pyre.Prelude.{Bool-cases, inl, inr, find?, is_empty}
use pyre.Prelude.{List, Option, none, some}
use pyre.Layout.Tree.{LayoutNode, Orient}
use pyre.Proto.{closed, layout_changed}
use pyre.Sessions.State.{
  Pane, Window, Session, Effect, upsert_session, assign_pane_window, announce, Registry, Result, ok,
  err, emit, get_session, get_pane, is_window, change_session, evict_found, evict_session_if_empty,
}
use pyre.Sessions.Panes.{
  OpenPaneReq, Spawn, init_layout, register_pane, save_session, save_pane, open_started, open_at,
  open_in, open_pane, prune_tree, prune_layout, close_found, close_pane_at, close_pane,
  split_layout, split_opened, split_in, split_at, open_pane_split, mirror, remove_from,
}
use pyre.Sessions.Windows.{weigh_tree, weigh_window, weigh_at, set_pane_weight}
use pyre.Sessions.Order.{Grows, stays, then_grows, plain, plain_at, saved}

-- What each step adds to the log. A step that changes the sessions alone adds nothing.
init_layout-Grows :
    (r : Registry) (session window pane : ℕ) (o : Option LayoutNode)
    → Grows r.log (init_layout r session window pane o).log
unfolding init_layout
init_layout-Grows r session window pane (some tree) = stays r.log
init_layout-Grows r session window pane none = plain r.log _ refl

register_pane-Grows :
    (r : Registry) (s : Session) (w : Window) (req : OpenPaneReq) (spawn : Spawn)
    → Grows r.log (register_pane r s w req spawn).log
unfolding register_pane emit
register_pane-Grows r s w req spawn =
    then_grows (plain r.log (assign_pane_window spawn.id s.id w.id) refl)
      (then_grows (init_layout-Grows _ s.id w.id spawn.id w.layout) (plain _ _ refl))

open_started-Grows :
    (r : Registry) (s : Session) (req : OpenPaneReq) (spawn : Spawn) (w : Window)
    → Grows r.log (open_started r s req spawn w).0.log
unfolding open_started save_session save_pane
open_started-Grows r s req spawn w = elim (Bool-cases spawn.session_saved) [
  | inr a ↦ rw a (stays r.log)
  | inl a ↦ elim (Bool-cases spawn.pane_saved) [
    | inr b ↦ rw (a, b) (plain r.log (upsert_session s.id s.name) refl)
    | inl b ↦
        simp (a, b)
          (then_grows (plain r.log (upsert_session s.id s.name) refl)
            (then_grows (plain _ _ refl) (register_pane-Grows _ s w req spawn)))
  ]
]

open_at-Grows :
    (r : Registry) (s : Session) (req : OpenPaneReq) (spawn : Spawn) (o : Option Window)
    → Grows r.log (open_at r s req spawn o).0.log
unfolding open_at
open_at-Grows r s req spawn none = stays r.log
open_at-Grows r s req spawn (some w) = elim (Bool-cases spawn.started) [
  | inr e ↦ rw e (stays r.log)
  | inl e ↦ simp e (open_started-Grows r s req spawn w)
]

open_in-Grows :
    (r : Registry) (id : ℕ) (req : OpenPaneReq) (spawn : Spawn) (o : Option Session)
    → Grows r.log (open_in r id req spawn o).0.log
unfolding open_in
open_in-Grows r id req spawn none = stays r.log
open_in-Grows r id req spawn (some s) = open_at-Grows r s req spawn _

pub open_pane-Grows :
    (r : Registry) (id : ℕ) (req : OpenPaneReq) (spawn : Spawn)
    → Grows r.log (open_pane r id req spawn).0.log
unfolding open_pane
open_pane-Grows r id req spawn = open_in-Grows r id req spawn _

prune_layout-Grows :
    (r : Registry) (session pane : ℕ) (o : Option Window)
    → Grows r.log (prune_layout r session pane true o).log
unfolding prune_layout prune_tree emit
prune_layout-Grows r session pane none = stays r.log
prune_layout-Grows r session pane (some w) = go w.layout
  where
    go : (o : Option LayoutNode) → Grows r.log (prune_tree r session w.id pane true o).log
    go none = stays r.log
    go (some tree) = saved r.log w.id pane _ layout_changed

evict-log : (r : Registry) (id : ℕ) → (evict_session_if_empty r id).log ≡ r.log
unfolding evict_session_if_empty evict_found
evict-log r id = go (get_session r id)
  where
    go : (o : Option Session) → (evict_found r id o).log ≡ r.log
    go none = refl
    go (some s) = elim (Bool-cases (is_empty s.panes)) [ inl e ↦ rw e refl | inr e ↦ rw e refl ]

close_found-Grows :
    (r : Registry) (s : Session) (p : Pane) → Grows r.log (close_found r s p true).log
unfolding close_found emit
close_found-Grows r s p =
    then_grows (prune_layout-Grows removed s.id p.id (find? (is_window p.window) s.windows)) (
      plain_at pruned.log (evict_session_if_empty pruned s.id).log (announce p.id closed)
        (evict-log pruned s.id) refl)
  where
    removed : Registry
    removed = record r { sessions = change_session (remove_from p.id) s.id r.sessions }

    pruned : Registry
    pruned = prune_layout removed s.id p.id true (find? (is_window p.window) s.windows)

pub close_pane-Grows :
    (r : Registry) (pane : ℕ) (killed : ℕ → Bool)
    → Grows r.log (close_pane r pane killed true).0.log
unfolding close_pane close_pane_at
close_pane-Grows r pane killed = go (get_pane r pane)
  where
    go : (o : Option (Session × Pane)) → Grows r.log (close_pane_at r pane killed true o).0.log
    go none = stays r.log
    go (some (s, p)) = elim (Bool-cases (killed pane)) [
      | inl e ↦ rw e (close_found-Grows r s p)
      | inr e ↦ rw e (stays r.log)
    ]

split_opened-Grows :
    (log : List Effect) (session window parent : ℕ) (orient : Orient) (o : Registry × Result ℕ)
    → Grows log o.0.log
    → Grows log (split_opened session window parent orient o).0.log
unfolding split_opened split_layout emit
split_opened-Grows log session window parent orient (r, err e) h = h
split_opened-Grows log session window parent orient (r, ok pane) h =
    then_grows h (saved r.log window pane _ layout_changed)

pub open_pane_split-Grows :
    (r : Registry) (parent : ℕ) (orient : Orient) (name cmd : Option (List ℕ)) (spawn : Spawn)
    → Grows r.log (open_pane_split r parent orient name cmd spawn).0.log
unfolding open_pane_split split_at split_in
open_pane_split-Grows r parent orient name cmd spawn = go (get_pane r parent)
  where
    within :
        (s : Session) (p : Pane) (o : Option Window)
        → Grows r.log (split_in r s p orient (mirror p name cmd) spawn o).0.log
    within s p none = stays r.log
    within s p (some w) =
        split_opened-Grows r.log s.id w.id p.id orient _
          (open_pane-Grows r s.id (mirror p name cmd) spawn)

    go :
        (o : Option (Session × Pane))
        → Grows r.log (split_at r parent orient name cmd spawn o).0.log
    go none = stays r.log
    go (some (s, p)) = within s p (find? (is_window p.window) s.windows)

pub set_pane_weight-Grows :
    (r : Registry) (pane weight : ℕ) (written : Bool)
    → Grows r.log (set_pane_weight r pane weight written).0.log
unfolding set_pane_weight weigh_at weigh_window weigh_tree emit
set_pane_weight-Grows r pane weight written = go (get_pane r pane)
  where
    tree_of :
        (s : Session) (p : Pane) (w : Window) (o : Option LayoutNode)
        → Grows r.log (weigh_tree r s.id w.id p.id weight written o).0.log
    tree_of s p w none = stays r.log
    tree_of s p w (some tree) = elim (Bool-cases written) [
      | inl e ↦ rw e (saved r.log w.id p.id _ layout_changed)
      | inr e ↦ rw e (stays r.log)
    ]

    within :
        (s : Session) (p : Pane) (o : Option Window)
        → Grows r.log (weigh_window r s p weight written o).0.log
    within s p none = stays r.log
    within s p (some w) = tree_of s p w w.layout

    go : (o : Option (Session × Pane)) → Grows r.log (weigh_at r pane weight written o).0.log
    go none = stays r.log
    go (some (s, p)) = within s p (find? (is_window p.window) s.windows)
