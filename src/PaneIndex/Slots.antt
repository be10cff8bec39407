-- ===== src/PaneIndex/Slots.antt =====
-- Closed slots: a slot that was closed stays closed whatever else is done with the index, until its
-- session is evicted.
use pyre.Prelude.{ℕ, suc, ◌+◌, ◌^◌, ◌<◌, ◌≡◌, inl, inr, arith, Bool-cases}
use pyre.Prelude.{List, [], ◌∷◌, Bool, false, none}
use pyre.Prelude.{◌==◌, length, any, subst}
use pyre.PaneIndex.{
  WorkerRegistry, counter, remove_pane_slot, remove, alloc_pane, get_or_alloc_pane_by_slot,
}
use pyre.PaneIndex.Sealed.{
  Sealed, alloc-Sealed, relax, claim-Sealed, close-Sealed, evict-Sealed, Sealed-refuses,
  remove_pane_slot-Sealed,
}

-- What the supervisor does with the index. The fresh UUID of an allocation is a part of it.
pub data SlotOp : Type 0 where
  alloc : (fresh session : ℕ) → SlotOp
  claim : (fresh session slot : ℕ) → SlotOp
  close : (session slot : ℕ) → SlotOp
  evict : (session : ℕ) → SlotOp

unfoldable pub run_op : WorkerRegistry → SlotOp → WorkerRegistry
run_op r (alloc fresh session) = (alloc_pane r fresh session).0
run_op r (claim fresh session slot) = (get_or_alloc_pane_by_slot r fresh session slot).0
run_op r (close session slot) = record r { panes = (remove_pane_slot r.panes session slot).0 }
run_op r (evict session) = (remove r session).0

unfoldable pub run_ops : WorkerRegistry → List SlotOp → WorkerRegistry
run_ops r [] = r
run_ops r (op ∷ ops) = run_ops (run_op r op) ops

abbrev pub evicts : ℕ → SlotOp → Bool
evicts session (evict other) = other == session
evicts session _ = false

run_op-Sealed :
    (s i n : ℕ) (r : WorkerRegistry) (op : SlotOp)
    → evicts s op ≡ false
    → Sealed s i (n + 1) r.panes
    → Sealed s i n (run_op r op).panes
unfolding run_op remove
run_op-Sealed s i n r (alloc fresh session) e h = alloc-Sealed s i n fresh session r h
run_op-Sealed s i n r (claim fresh session slot) e h =
    claim-Sealed s i n fresh session slot r (relax s i n r.panes h)
run_op-Sealed s i n r (close session slot) e h =
    close-Sealed s i n session slot r.panes (relax s i n r.panes h)
run_op-Sealed s i n r (evict session) e h =
    evict-Sealed s i n session r.panes e (relax s i n r.panes h)

run_ops-Sealed :
    (s i : ℕ) (r : WorkerRegistry) (ops : List SlotOp)
    → any (evicts s) ops ≡ false
    → Sealed s i (length ops) r.panes
    → Sealed s i 0 (run_ops r ops).panes
unfolding run_ops
run_ops-Sealed s i r [] e h = h
run_ops-Sealed s i r (op ∷ ops) e h = elim (Bool-cases (evicts s op)) [
  | inl y ↦ absurd (ground (arith, y, e))
  | inr y ↦ run_ops-Sealed s i (run_op r op) ops (ground (arith, y, e)) (
      run_op-Sealed s i (length ops) r op y
        (subst (λ k. Sealed s i k r.panes) {x = suc (length ops)} (omega arith) h))
]

-- A slot that was handed out and then closed is never given a pane again by a late event, through
-- any later allocations, claims and closings in any session and evictions of other sessions, as
-- long as the 32-bit counter of the session does not run over.
pub closed_slot_stays_closed :
    (r : WorkerRegistry) (session slot fresh : ℕ) (ops : List SlotOp)
    → slot < counter r.panes.next_slot session
    → counter r.panes.next_slot session + length ops < 2 ^ 32
    → any (evicts session) ops ≡ false
    → get_or_alloc_pane_by_slot (run_ops (run_op r (close session slot)) ops) fresh session slot
      ≡ (run_ops (run_op r (close session slot)) ops, none)
unfolding run_op
closed_slot_stays_closed r session slot fresh ops b m e =
    Sealed-refuses session slot 0 fresh _
      (run_ops-Sealed session slot _ ops e (remove_pane_slot-Sealed session slot _ r.panes b m))
