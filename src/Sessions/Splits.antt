-- ===== src/Sessions/Splits.antt =====
-- What opening and splitting a pane do to its session, on every registry that the operations built.
use pyre.Prelude.{ℕ, ◌≡◌, refl, sym, ap, ◌∙◌, true}
use pyre.Prelude.{==_iff, subst, List, [], ◌∷◌, ◌++◌, Option, some, find?}
use pyre.Prelude.{find?-here}
use pyre.Layout.Tree.{LayoutNode, Orient}
use pyre.Layout.Edit
use pyre.Proto.{spawned, layout_changed}
use pyre.Sessions.State.{
  Pane, Window, Session, upsert_session, upsert_pane, upsert_window_layout, assign_pane_window,
  announce, Registry, Result, ok, new, get_session, get_pane, is_window, change_window, put_layout,
}
use pyre.Sessions.Panes.{
  OpenPaneReq, Spawn, save_session, save_pane, register_pane, insert_pane, split_layout,
  split_opened, split_in, split_at, mirror, open_pane_split,
}
use pyre.Sessions.Ops.{Op, run_ops}
use pyre.Sessions.Lookup.{run_ops-get_pane}
use pyre.Sessions.Opened.{
  requested, saved-session, register_pane-session, split_layout-session, open_pane_found,
}

-- The session after a split: its new pane, and the new tree in the parent's window.
abbrev pub split_session : Session → Window → LayoutNode → Pane → ℕ → Session
split_session s w split pane now = change_window (put_layout split) w.id (insert_pane pane now s)

open_pane_split_found :
    (r : Registry) (s : Session) (p : Pane) (w : Window) (orient : Orient)
    (name cmd : Option (List ℕ)) (spawn : Spawn)
    → get_session r s.id ≡ some s
    → get_pane r p.id ≡ some (s, p)
    → find? (is_window p.window) s.windows ≡ some w
    → spawn.started ≡ true
    → spawn.session_saved ≡ true
    → spawn.pane_saved ≡ true
    → open_pane_split r p.id orient name cmd spawn ≡ (
      split_layout
          (register_pane
            (save_pane (save_session r s) s (mirror p name cmd) spawn)
            s
            w
            (mirror p name cmd)
            spawn)
          s.id
          w.id
          p.id
          spawn.id
          orient,
      ok spawn.id,
    )
unfolding open_pane_split split_at split_in split_opened
open_pane_split_found r s p w orient name cmd spawn found pane_found here started session_saved
      pane_saved =
    ap (split_at r p.id orient name cmd spawn) pane_found
    ∙ ap (split_in r s p orient (mirror p name cmd) spawn) here
    ∙ ap (split_opened s.id w.id p.id orient) (
        open_pane_found r s w (mirror p name cmd) spawn found here started session_saved pane_saved)

-- The outcome of a split of the pane `parent`, which was looked up as `p`.
abbrev IsSplit :
    Registry
    → ℕ
    → Session
    → Pane
    → Window
    → LayoutNode
    → Orient
    → Option (List ℕ)
    → Option (List ℕ)
    → Spawn
    → Registry × Result ℕ
    → Type 0
IsSplit before parent s p w tree orient name cmd spawn (r, answer) =
    let split = Edit.split_focused tree parent spawn.id orient in
    let pane = requested s w (mirror p name cmd) spawn in
    (answer ≡ ok spawn.id)
    × (get_session r s.id ≡ some (split_session s w split pane spawn.now))
    × (r.log
        ≡ before.log
          ++ (upsert_session s.id s.name
              ∷ upsert_pane spawn.id s.id pane.shell p.cols p.rows
              ∷ assign_pane_window spawn.id s.id w.id
              ∷ announce spawn.id spawned
              ∷ upsert_window_layout w.id split
              ∷ announce spawn.id layout_changed
              ∷ []))

log_lem :
    {A : Type 0} (l : List A) (a b c d e f : A)
    → ((((l ++ (a ∷ [])) ++ (b ∷ [])) ++ (c ∷ d ∷ [])) ++ (e ∷ [])) ++ (f ∷ [])
      ≡ l ++ (a ∷ b ∷ c ∷ d ∷ e ∷ f ∷ [])
log_lem [] a b c d e f = refl
log_lem (x ∷ l) a b c d e f = ap (λ t. x ∷ t) (log_lem l a b c d e f)

open_pane_split-IsSplit :
    (r : Registry) (s : Session) (p : Pane) (w : Window) (tree : LayoutNode) (orient : Orient)
    (name cmd : Option (List ℕ)) (spawn : Spawn)
    → get_session r s.id ≡ some s
    → get_pane r p.id ≡ some (s, p)
    → find? (is_window p.window) s.windows ≡ some w
    → w.layout ≡ some tree
    → spawn.started ≡ true
    → spawn.session_saved ≡ true
    → spawn.pane_saved ≡ true
    → IsSplit r p.id s p w tree orient name cmd spawn (open_pane_split r p.id orient name cmd spawn)
unfolding save_pane save_session
open_pane_split-IsSplit r s p w tree orient name cmd spawn found pane_found here laid started
      session_saved pane_saved =
    let saved = upsert_window_layout w.id (Edit.split_focused tree p.id spawn.id orient) in
    let told = announce spawn.id layout_changed in
    subst (IsSplit r p.id s p w tree orient name cmd spawn)
      (sym (
        open_pane_split_found r s p w orient name cmd spawn found pane_found here started
          session_saved pane_saved))
      (
        refl,
        after.0,
        after.1 ∙ ap (λ l. (l ++ (saved ∷ [])) ++ (told ∷ [])) opened.1 ∙ log_lem r.log _ _ _ _ _ _,
      )
  where
    req : OpenPaneReq
    req = mirror p name cmd

    grown : Session
    grown = insert_pane (requested s w req spawn) spawn.now s

    rows : Registry
    rows = save_pane (save_session r s) s req spawn

    opened :
        (get_session (register_pane rows s w req spawn) s.id ≡ some grown)
        × ((register_pane rows s w req spawn).log
            ≡ rows.log ++ (assign_pane_window spawn.id s.id w.id ∷ announce spawn.id spawned ∷ []))
    opened =
        register_pane-session rows s w req spawn tree (saved-session r s req spawn s.id ∙ found)
          laid

    id_eq : w.id ≡ p.window
    id_eq = (==_iff w.id p.window).0 (find?-here (is_window p.window) s.windows w here)

    after :
        let split = Edit.split_focused tree p.id spawn.id orient in
        let r' = split_layout (register_pane rows s w req spawn) s.id w.id p.id spawn.id orient in
        (get_session r' s.id ≡ some (change_window (put_layout split) w.id grown))
        × (r'.log
            ≡ ((register_pane rows s w req spawn).log ++ (upsert_window_layout w.id split ∷ []))
              ++ (announce spawn.id layout_changed ∷ []))
    after =
        split_layout-session (register_pane rows s w req spawn) grown w p.id spawn.id orient tree
          opened.0 (subst (λ i. find? (is_window i) s.windows ≡ some w) (sym id_eq) here) laid

-- After any operations on a new registry, a split of a pane whose window has a layout succeeds where
-- the process starts and the store takes the rows of the session and of the pane: the session gets a
-- pane of the parent's window and size, the window's layout becomes the old one with the parent's
-- leaf split, and the effects are the two rows, the assignment of the pane, its `spawned` event, the
-- write of the layout and the layout's event, in this order.
pub run_ops-open_pane_split :
    (ops : List Op) (parent : ℕ) (s : Session) (p : Pane) (w : Window) (tree : LayoutNode)
    (orient : Orient) (name cmd : Option (List ℕ)) (spawn : Spawn)
    → get_pane (run_ops new ops) parent ≡ some (s, p)
    → find? (is_window p.window) s.windows ≡ some w
    → w.layout ≡ some tree
    → spawn.started ≡ true
    → spawn.session_saved ≡ true
    → spawn.pane_saved ≡ true
    → let (r, answer) = open_pane_split (run_ops new ops) parent orient name cmd spawn in
      let split = Edit.split_focused tree parent spawn.id orient in
      let pane = requested s w (mirror p name cmd) spawn in
      (answer ≡ ok spawn.id)
      × (get_session r s.id ≡ some (split_session s w split pane spawn.now))
      × (r.log
          ≡ (run_ops new ops).log
            ++ (upsert_session s.id s.name
                ∷ upsert_pane spawn.id s.id pane.shell p.cols p.rows
                ∷ assign_pane_window spawn.id s.id w.id
                ∷ announce spawn.id spawned
                ∷ upsert_window_layout w.id split
                ∷ announce spawn.id layout_changed
                ∷ []))
run_ops-open_pane_split ops parent s p w tree orient name cmd spawn found here laid started
      session_saved pane_saved =
    subst
      (λ i.
        IsSplit (run_ops new ops) i s p w tree orient name cmd spawn
          (open_pane_split (run_ops new ops) i orient name cmd spawn))
      owned.0
      (open_pane_split-IsSplit (run_ops new ops) s p w tree orient name cmd spawn owned.2
        (subst (λ i. get_pane (run_ops new ops) i ≡ some (s, p)) (sym owned.0) found) here laid
        started session_saved pane_saved)
  where
    owned : (p.id ≡ parent) × (p.session ≡ s.id) × (get_session (run_ops new ops) s.id ≡ some s)
    owned = run_ops-get_pane ops parent s p found
