-- ===== src/PaneIndex/Sealed.antt =====
-- What keeps a closed slot closed, and that every operation on the index keeps it so.
use pyre.Prelude.{ℕ, ◌+◌, ◌^◌, ◌<◌, ◌≡◌, refl, ◌∙◌, inl, inr, arith, Bool-cases}
use pyre.Prelude.{List, [], ◌∷◌, ◌++◌, true, false, not, ◌&&◌, Option, none, some}
use pyre.Prelude.{◌==◌, filter, any, ==_refl, ==_ne, subst}
use pyre.PaneIndex.{
  PaneEntry, PaneIndex, WorkerRegistry, has_pane, in_session, at_slot, register, pane_id_by_slot,
  is_dead, counter, next_slot, remove_session, remove_pane_slot, alloc_pane, alloc_unless_dead,
  get_or_alloc_pane_by_slot,
}
use pyre.PaneIndex.Vacant.{
  any-filter, any-append_one, any-removed, find_vacant, any-filter_kept, counter-filter,
}

-- The slot is closed, has no pane, and is below the counter, which `n` more allocations do not
-- bring to its end.
pub record Sealed (s i n : ℕ) (index : PaneIndex) : Type 0 where
  pub vacant : any (at_slot s i) index.pane_to_slot ≡ false
  pub dead : is_dead index s i ≡ true
  pub below : i < counter index.next_slot s
  pub room : counter index.next_slot s + n < 2 ^ 32

register_vacant :
    (s i fresh session slot : ℕ) (es : List PaneEntry)
    → any (at_slot s i) es ≡ false
    → ((session == s) && (slot == i)) ≡ false
    → any (at_slot s i) (
        filter (λ x. not (has_pane fresh x)) es
        ++ (record { pane_id = fresh; session_id = session; slot_idx = slot } ∷ []))
      ≡ false
register_vacant s i fresh session slot es v h =
    any-append_one (at_slot s i) (filter (λ x. not (has_pane fresh x)) es) _
      (any-filter (at_slot s i) (λ x. not (has_pane fresh x)) es v) h

-- The session's own next slot is above the closed one.
alloc_own :
    (s i n fresh : ℕ) (r : WorkerRegistry)
    → Sealed s i (n + 1) r.panes
    → Sealed s i n (alloc_pane r fresh s).0.panes
unfolding alloc_pane next_slot register is_dead counter
alloc_own s i n fresh r h = record {
  vacant =
      register_vacant s i fresh s (counter r.panes.next_slot s) r.panes.pane_to_slot h.vacant
        (rw (==_refl s) (==_ne _ i (omega (arith, h.below))));
  dead = h.dead;
  below = rw (==_refl s) (omega (arith, h.below, h.room));
  room = rw (==_refl s) (omega (arith, h.below, h.room));
}

alloc_foreign :
    (s i n fresh session : ℕ) (r : WorkerRegistry)
    → (session == s) ≡ false
    → Sealed s i (n + 1) r.panes
    → Sealed s i n (alloc_pane r fresh session).0.panes
unfolding alloc_pane next_slot register is_dead counter
alloc_foreign s i n fresh session r e h = record {
  vacant =
      register_vacant s i fresh session (counter r.panes.next_slot session) r.panes.pane_to_slot
        h.vacant (rw e refl);
  dead = h.dead;
  below = rw (e, counter-filter s session r.panes.next_slot e) h.below;
  room = rw (e, counter-filter s session r.panes.next_slot e) (omega (arith, h.room));
}

pub alloc-Sealed :
    (s i n fresh session : ℕ) (r : WorkerRegistry)
    → Sealed s i (n + 1) r.panes
    → Sealed s i n (alloc_pane r fresh session).0.panes
alloc-Sealed s i n fresh session r h = elim (Bool-cases (session == s)) [
  | inl e ↦
      subst (λ k. Sealed s i n (alloc_pane r fresh k).0.panes) {x = s} (ground arith)
        (alloc_own s i n fresh r h)
  | inr e ↦ alloc_foreign s i n fresh session r e h
]

pub relax : (s i n : ℕ) (index : PaneIndex) → Sealed s i (n + 1) index → Sealed s i n index
relax s i n index h = record {
  vacant = h.vacant;
  dead = h.dead;
  below = h.below;
  room = omega (arith, h.room);
}

register-Sealed :
    (s i n fresh session slot : ℕ) (index : PaneIndex)
    → ((session == s) && (slot == i)) ≡ false
    → Sealed s i n index
    → Sealed s i n (register index fresh session slot)
unfolding register is_dead
register-Sealed s i n fresh session slot index e h = record {
  vacant = register_vacant s i fresh session slot index.pane_to_slot h.vacant e;
  dead = h.dead;
  below = h.below;
  room = h.room;
}

-- A slot that is claimed and not dead is another one than the closed slot.
pub claim-Sealed :
    (s i n fresh session slot : ℕ) (r : WorkerRegistry)
    → Sealed s i n r.panes
    → Sealed s i n (get_or_alloc_pane_by_slot r fresh session slot).0.panes
unfolding get_or_alloc_pane_by_slot alloc_unless_dead
claim-Sealed s i n fresh session slot r h = go (pane_id_by_slot r.panes session slot)
  where
    apart : is_dead r.panes session slot ≡ false → ((session == s) && (slot == i)) ≡ false
    apart e = elim (Bool-cases (session == s)) [
      | inr y ↦ rw y refl
      | inl y ↦ elim (Bool-cases (slot == i)) [
        | inr z ↦ rw (y, z) refl
        | inl z ↦
            let twin : is_dead r.panes session slot ≡ true =
              subst (λ k. is_dead r.panes k slot ≡ true) {x = s} (ground arith)
                (subst (λ k. is_dead r.panes s k ≡ true) {x = i} (ground arith) h.dead) in
            absurd (ground (arith, twin, e))
      ]
    ]

    go : (o : Option ℕ) → Sealed s i n (alloc_unless_dead r fresh session slot o).0.panes
    go (some pane) = h
    go none = elim (Bool-cases (is_dead r.panes session slot)) [
      | inl e ↦ rw e h
      | inr e ↦ rw e (register-Sealed s i n fresh session slot r.panes (apart e) h)
    ]

pub close-Sealed :
    (s i n session slot : ℕ) (index : PaneIndex)
    → Sealed s i n index
    → Sealed s i n (remove_pane_slot index session slot).0
unfolding remove_pane_slot is_dead
close-Sealed s i n session slot index h = record {
  vacant = any-filter (at_slot s i) (λ e. not (at_slot session slot e)) index.pane_to_slot h.vacant;
  dead = ground (arith, h.dead);
  below = h.below;
  room = h.room;
}

pub evict-Sealed :
    (s i n session : ℕ) (index : PaneIndex)
    → (session == s) ≡ false
    → Sealed s i n index
    → Sealed s i n (remove_session index session)
unfolding remove_session is_dead
evict-Sealed s i n session index e h = record {
  vacant = any-filter (at_slot s i) (λ x. not (in_session session x)) index.pane_to_slot h.vacant;
  dead = any-filter_kept s session i index.dead_slots e ∙ h.dead;
  below = rw (counter-filter s session index.next_slot e) h.below;
  room = rw (counter-filter s session index.next_slot e) h.room;
}

pub Sealed-refuses :
    (s i n fresh : ℕ) (r : WorkerRegistry)
    → Sealed s i n r.panes
    → get_or_alloc_pane_by_slot r fresh s i ≡ (r, none)
unfolding get_or_alloc_pane_by_slot alloc_unless_dead pane_id_by_slot
Sealed-refuses s i n fresh r h =
    rw (find_vacant (at_slot s i) r.panes.pane_to_slot h.vacant, h.dead) refl

pub remove_pane_slot-Sealed :
    (s i n : ℕ) (index : PaneIndex)
    → i < counter index.next_slot s
    → counter index.next_slot s + n < 2 ^ 32
    → Sealed s i n (remove_pane_slot index s i).0
unfolding remove_pane_slot is_dead
remove_pane_slot-Sealed s i n index b m = record {
  vacant = any-removed (at_slot s i) index.pane_to_slot;
  dead = rw (==_refl s, ==_refl i) refl;
  below = b;
  room = m;
}
