-- ===== src/PaneClosed/EitherOrder.antt =====
-- The two ways in which a closed pane leaves its layout, the RPC and the worker's report, in any order.
use pyre.Prelude.{ℕ, ◌≡◌, refl, sym, ap, ◌∙◌, inl, inr, Bool-cases, not}
use pyre.Prelude.{List, [], ◌∷◌, Option, none, some, filter, find?}
use pyre.PaneIndex.{WorkerRegistry, get_or_alloc_pane_by_slot, alloc_unless_dead, pane_id_by_slot}
use pyre.Layout.Tree.{LayoutNode}
use pyre.Proto.{closed}
use pyre.EventBus.{emit}
use pyre.PaneClosed.{
  Supervisor, PaneWindow, WindowMeta, of_pane, of_window, forget_window, prune_tree, prune_window,
  prune_layout, announce, drop_slot, pane_closed,
}
use pyre.PaneClosed.Collapse.{prune_pane}

find-forgotten :
    (pane : ℕ) (ws : List PaneWindow)
    → find? (of_pane pane) (filter (λ w. not (of_pane pane w)) ws) ≡ none
find-forgotten pane [] = refl
find-forgotten pane (w ∷ ws) = elim (Bool-cases (of_pane pane w)) [
  | inl e ↦ rw e (find-forgotten pane ws)
  | inr e ↦ rw (e, e) (find-forgotten pane ws)
]

filter-forgotten :
    (pane : ℕ) (ws : List PaneWindow)
    → filter (λ w. not (of_pane pane w)) (filter (λ w. not (of_pane pane w)) ws)
      ≡ filter (λ w. not (of_pane pane w)) ws
filter-forgotten pane [] = refl
filter-forgotten pane (w ∷ ws) = elim (Bool-cases (of_pane pane w)) [
  | inl e ↦ rw e (filter-forgotten pane ws)
  | inr e ↦ rw (e, e) (ap (λ xs. w ∷ xs) (filter-forgotten pane ws))
]

-- The pruning of a layout leaves the registry and the reverse index alone, and reads neither.
record Prunes (pane : ℕ) (o : Option PaneWindow) (sup : Supervisor) : Type 0 where
  map_eq : (prune_layout sup pane o).pane_window_map ≡ sup.pane_window_map
  registry_eq : (prune_layout sup pane o).registry ≡ sup.registry
  commutes :
      (r : WorkerRegistry)
      → record (prune_layout sup pane o) { registry = r }
        ≡ prune_layout (record sup { registry = r }) pane o

prune_layout-Prunes : (sup : Supervisor) (pane : ℕ) (o : Option PaneWindow) → Prunes pane o sup
unfolding prune_layout prune_window prune_tree
prune_layout-Prunes sup pane none = record {
  map_eq = refl;
  registry_eq = refl;
  commutes = λ r. refl;
}
prune_layout-Prunes sup pane (some w) = record {
  map_eq = same.0;
  registry_eq = same.1;
  commutes = same.2;
}
  where
    IsSame : (Supervisor → Supervisor) → Type 0
    IsSame f =
        ((f sup).pane_window_map ≡ sup.pane_window_map)
        × ((f sup).registry ≡ sup.registry)
        × ((r : WorkerRegistry) → record (f sup) { registry = r } ≡ f (record sup { registry = r }))

    tree_of : (window : ℕ) (o : Option LayoutNode) → IsSame (λ s. prune_tree s pane window o)
    tree_of window none = (refl, refl, λ r. refl)
    tree_of window (some tree) = (refl, refl, λ r. refl)

    meta_of : (o : Option WindowMeta) → IsSame (λ s. prune_window s pane o)
    meta_of none = (refl, refl, λ r. refl)
    meta_of (some meta) = tree_of meta.window_id meta.layout

    same : IsSame (λ s. prune_layout s pane (some w))
    same = meta_of (find? (of_window w.window_id) sup.window_store)

abbrev told : Supervisor → ℕ → Supervisor
told s pane = record s { pane_event_bus = emit s.pane_event_bus pane closed none }

-- A pane that the reverse index has no more is not taken out again.
prune_pane_absent :
    (s : Supervisor) (pane : ℕ) (ws : List PaneWindow)
    → s.pane_window_map ≡ filter (λ w. not (of_pane pane w)) ws
    → prune_pane s pane ≡ s
unfolding prune_pane prune_layout
prune_pane_absent s pane ws h =
    ap (prune_layout (forget_window s pane) pane)
      (ap (find? (of_pane pane)) h ∙ find-forgotten pane ws)
    ∙ ap (λ m. record s { pane_window_map = m })
        (ap (filter (λ w. not (of_pane pane w))) h ∙ filter-forgotten pane ws ∙ sym h)

prune_pane-map :
    (s : Supervisor) (pane : ℕ)
    → (prune_pane s pane).pane_window_map ≡ filter (λ w. not (of_pane pane w)) s.pane_window_map
unfolding prune_pane
prune_pane-map s pane =
    let p : Prunes pane _ (forget_window s pane) =
      prune_layout-Prunes (forget_window s pane) pane (find? (of_pane pane) s.pane_window_map) in
    p.map_eq

prune_pane-registry : (s : Supervisor) (pane : ℕ) → (prune_pane s pane).registry ≡ s.registry
unfolding prune_pane
prune_pane-registry s pane =
    let p : Prunes pane _ (forget_window s pane) =
      prune_layout-Prunes (forget_window s pane) pane (find? (of_pane pane) s.pane_window_map) in
    p.registry_eq

prune_pane-with_registry :
    (s : Supervisor) (pane : ℕ) (r : WorkerRegistry)
    → record (prune_pane s pane) { registry = r } ≡ prune_pane (record s { registry = r }) pane
unfolding prune_pane
prune_pane-with_registry s pane r =
    let p : Prunes pane _ (forget_window s pane) =
      prune_layout-Prunes (forget_window s pane) pane (find? (of_pane pane) s.pane_window_map) in
    p.commutes r

-- The report of a known pane is the pruning, in the registry without the slot, and the event.
pane_closed_lem :
    (sup : Supervisor) (fresh session slot pane : ℕ)
    → pane_id_by_slot sup.registry.panes session slot ≡ some pane
    → pane_closed sup fresh session slot
      ≡ told (prune_pane (record sup { registry = drop_slot sup.registry session slot }) pane) pane
unfolding pane_closed get_or_alloc_pane_by_slot alloc_unless_dead announce prune_pane
pane_closed_lem sup fresh session slot pane known =
    ap
      (λ o.
        let claimed = alloc_unless_dead sup.registry fresh session slot o in
        announce (record sup { registry = drop_slot claimed.0 session slot }) claimed.1)
      known

-- A pane whose slot is known leaves its layout the same way, with the same writes and events, whether
-- the RPC takes it out and the worker then reports its end, or the report comes first, or alone.
pub prune_pane-pane_closed :
    (sup : Supervisor) (fresh session slot pane : ℕ)
    → pane_id_by_slot sup.registry.panes session slot ≡ some pane
    → (pane_closed (prune_pane sup pane) fresh session slot ≡ pane_closed sup fresh session slot)
      × (prune_pane (pane_closed sup fresh session slot) pane ≡ pane_closed sup fresh session slot)
prune_pane-pane_closed sup fresh session slot pane known = (
  pane_closed_lem (prune_pane sup pane) fresh session slot pane
        (ap (λ r. pane_id_by_slot r.panes session slot) (prune_pane-registry sup pane) ∙ known)
      ∙ ap
          (λ r.
            told
              (prune_pane (record (prune_pane sup pane) { registry = drop_slot r session slot })
                pane)
              pane)
          (prune_pane-registry sup pane)
      ∙ ap (λ s. told (prune_pane s pane) pane) (prune_pane-with_registry sup pane left_registry)
      ∙ ap (λ s. told s pane)
          (prune_pane_absent (prune_pane left pane) pane _ (prune_pane-map left pane))
      ∙ sym report,
  ap (λ s. prune_pane s pane) report
      ∙ prune_pane_absent (told (prune_pane left pane) pane) pane _ (prune_pane-map left pane)
      ∙ sym report,
)
  where
    left_registry : WorkerRegistry
    left_registry = drop_slot sup.registry session slot

    left : Supervisor
    left = record sup { registry = left_registry }

    report : pane_closed sup fresh session slot ≡ told (prune_pane left pane) pane
    report = pane_closed_lem sup fresh session slot pane known
