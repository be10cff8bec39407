-- ===== src/PaneIndex.antt =====
-- The supervisor's index of panes and its registry of workers (`PaneIndex` and `WorkerRegistry` of
-- crates/pyred/src/supervisor.rs). Session names and UUIDs are numbers that are only compared. A
-- hash map is an association list, newest entry last, walked in this order where the source walks
-- a map in an order it does not fix; a set is a list. A fresh UUID is an argument.
pub mod Vacant
pub mod Sealed
pub mod Slots
pub mod Lookup
pub mod Reuse
pub mod Respawn
pub mod Connect
use pyre.Prelude.{ℕ, ◌+◌, ◌-◌, Bool, true, false, List, [], ◌∷◌, ◌++◌, Option, none, some}
use pyre.Prelude.{not, ◌&&◌, ltb, ◌==◌, if◌then◌else◌, length, filter, find?, any, map}
use pyre.Prelude.Machine.{u32}
use mathlib.Core.Option

pub record PaneEntry : Type 0 where
  pub pane_id : ℕ
  pub session_id : ℕ
  pub slot_idx : ℕ

-- A counter of `next_slot`, or a member of `dead_slots`.
pub record SessionSlot : Type 0 where
  pub session_id : ℕ
  pub slot : ℕ

pub record PaneIndex : Type 0 where
  pub pane_to_slot : List PaneEntry
  pub next_slot : List SessionSlot
  pub dead_slots : List SessionSlot

unfoldable pub empty : PaneIndex
empty = record { pane_to_slot = []; next_slot = []; dead_slots = [] }

abbrev pub has_pane : ℕ → PaneEntry → Bool
has_pane pane e = e.pane_id == pane

abbrev pub in_session : ℕ → PaneEntry → Bool
in_session session e = e.session_id == session

abbrev pub at_slot : ℕ → ℕ → PaneEntry → Bool
at_slot session slot e = (e.session_id == session) && (e.slot_idx == slot)

unfoldable pub register : PaneIndex → ℕ → ℕ → ℕ → PaneIndex
register index pane session slot = record index {
  pane_to_slot =
      filter (λ e. not (has_pane pane e)) index.pane_to_slot
      ++ (record { pane_id = pane; session_id = session; slot_idx = slot } ∷ []);
}

unfoldable pub lookup : PaneIndex → ℕ → Option SessionSlot
lookup index pane =
    Option.map (λ e. record { session_id = e.session_id; slot = e.slot_idx })
      (find? (has_pane pane) index.pane_to_slot)

unfoldable pub pane_id_by_slot : PaneIndex → ℕ → ℕ → Option ℕ
pane_id_by_slot index session slot =
    Option.map (λ e. e.pane_id) (find? (at_slot session slot) index.pane_to_slot)

unfoldable pub is_dead : PaneIndex → ℕ → ℕ → Bool
is_dead index session slot =
    any (λ d. (d.session_id == session) && (d.slot == slot)) index.dead_slots

-- The counter of a session that has none yet is 0.
unfoldable pub counter : List SessionSlot → ℕ → ℕ
counter [] session = 0
counter (c ∷ cs) session = if c.session_id == session then c.slot else counter cs session

unfoldable pub next_slot : PaneIndex → ℕ → PaneIndex × ℕ
next_slot index session =
    let slot = counter index.next_slot session in
    (
      record index {
        next_slot =
            record { session_id = session; slot = u32 (slot + 1) }
            ∷ filter (λ c. not (c.session_id == session)) index.next_slot;
      },
      slot,
    )

unfoldable pub remove_session : PaneIndex → ℕ → PaneIndex
remove_session index session = record {
  pane_to_slot = filter (λ e. not (in_session session e)) index.pane_to_slot;
  next_slot = filter (λ c. not (c.session_id == session)) index.next_slot;
  dead_slots = filter (λ d. not (d.session_id == session)) index.dead_slots;
}

unfoldable pub pane_count : PaneIndex → ℕ → ℕ
pane_count index session = length (filter (in_session session) index.pane_to_slot)

unfoldable pub remove_pane_slot : PaneIndex → ℕ → ℕ → PaneIndex × ℕ
remove_pane_slot index session slot =
    let kept = filter (λ e. not (at_slot session slot e)) index.pane_to_slot in
    let left = record index {
      pane_to_slot = kept;
      dead_slots = record { session_id = session; slot = slot } ∷ index.dead_slots;
    } in
    (left, length (filter (in_session session) kept))

-- `WorkerRegistry`: what the supervisor keeps of a worker, the time of its last heartbeat in
-- milliseconds. Its control client and socket paths are handles of libraries.
pub record WorkerHandle : Type 0 where
  pub pid : ℕ
  pub last_heartbeat : ℕ

pub record Worker : Type 0 where
  pub session_id : ℕ
  pub handle : WorkerHandle

pub record WorkerRegistry : Type 0 where
  pub inner : List Worker
  pub panes : PaneIndex

abbrev pub without : ℕ → List Worker → List Worker
without session workers = filter (λ w. not (w.session_id == session)) workers

unfoldable pub insert : WorkerRegistry → ℕ → WorkerHandle → WorkerRegistry
insert registry session handle = record registry {
  inner = without session registry.inner ++ (record { session_id = session; handle = handle } ∷ []);
}

unfoldable pub worker : WorkerRegistry → ℕ → Option WorkerHandle
worker registry session =
    Option.map (λ w. w.handle) (find? (λ w. w.session_id == session) registry.inner)

unfoldable pub remove : WorkerRegistry → ℕ → WorkerRegistry × Option WorkerHandle
remove registry session = (
  record { inner = without session registry.inner; panes = remove_session registry.panes session },
  worker registry session,
)

unfoldable pub touch_heartbeat : WorkerRegistry → ℕ → ℕ → WorkerRegistry
touch_heartbeat registry now session = record registry {
  inner =
      map
        (λ w.
          if w.session_id == session
          then record w { handle = record w.handle { last_heartbeat = now } }
          else w)
        registry.inner;
}

unfoldable pub stale_sessions : WorkerRegistry → ℕ → ℕ → List ℕ
stale_sessions registry now timeout =
    map (λ w. w.session_id)
      (filter (λ w. ltb timeout (now - w.handle.last_heartbeat)) registry.inner)

unfoldable pub session_for_pid : WorkerRegistry → ℕ → Option ℕ
session_for_pid registry pid =
    Option.map (λ w. w.session_id) (find? (λ w. w.handle.pid == pid) registry.inner)

unfoldable pub alloc_pane : WorkerRegistry → ℕ → ℕ → WorkerRegistry × (ℕ × ℕ)
alloc_pane registry fresh session =
    let taken = next_slot registry.panes session in
    (record registry { panes = register taken.0 fresh session taken.1 }, (fresh, taken.1))

-- The branch where no pane is known at the slot.
unfoldable pub alloc_unless_dead : WorkerRegistry → ℕ → ℕ → ℕ → Option ℕ → WorkerRegistry × Option ℕ
alloc_unless_dead registry fresh session slot (some pane) = (registry, some pane)
alloc_unless_dead registry fresh session slot none =
    if is_dead registry.panes session slot
    then (registry, none)
    else (record registry { panes = register registry.panes fresh session slot }, some fresh)

unfoldable pub get_or_alloc_pane_by_slot : WorkerRegistry → ℕ → ℕ → ℕ → WorkerRegistry × Option ℕ
get_or_alloc_pane_by_slot registry fresh session slot =
    alloc_unless_dead registry fresh session slot (pane_id_by_slot registry.panes session slot)

unfoldable pub live_pane_ids : WorkerRegistry → ℕ → List ℕ
live_pane_ids registry session =
    map (λ e. e.pane_id) (filter (in_session session) registry.panes.pane_to_slot)
