-- ===== src/EventBus.antt =====
-- The bus of pane events: `PaneEventBus` and `next_pane_event` of crates/pyred/src/supervisor.rs,
-- and their twins `emit_event` and `events_after` of crates/pyred/src/session.rs. The broadcast
-- channel is a library's; the model keeps what is handed to it, and takes what a receiver gets
-- from it as an argument.
pub mod Numbered
pub mod Polling
pub mod Races
pub mod Waiting
use pyre.Prelude.{ℕ, ◌+◌, Bool, List, [], ◌∷◌, ◌++◌, Option, none, some}
use pyre.Prelude.{leb, ltb, if◌then◌else◌, length, drop, filter, is_empty}
use pyre.Prelude.Machine.{u64}
use pyre.Proto.{PaneStateKind, AgentKind, PaneEventKind, PaneEvent}

abbrev pub event_ring_cap : ℕ
event_ring_cap = 256

-- `tx` lists the events that were handed to the channel.
pub record PaneEventBus : Type 0 where
  pub tx : List PaneEvent
  pub ring : List PaneEvent
  pub seq : ℕ

-- What a caller of `emit_event` gives.
pub record Emission : Type 0 where
  pub pane_id : ℕ
  pub kind : PaneEventKind
  pub state : Option PaneStateKind
  pub agent : Option AgentKind

unfoldable pub new : PaneEventBus
new = record { tx = []; ring = []; seq = 0 }

abbrev pub stamp : ℕ → Emission → PaneEvent
stamp n e = record { seq = n; pane_id = e.pane_id; kind = e.kind; state = e.state; agent = e.agent }

-- The three atomic steps of an emission: the counter, the ring under its lock, the channel.
abbrev pub fetch_seq : PaneEventBus → PaneEventBus × ℕ
fetch_seq bus = (record bus { seq = u64 (bus.seq + 1) }, u64 (bus.seq + 1))

abbrev pub push_ring : PaneEventBus → PaneEvent → PaneEventBus
push_ring bus ev = record bus {
  ring = (if leb event_ring_cap (length bus.ring) then drop 1 bus.ring else bus.ring) ++ (ev ∷ []);
}

abbrev pub broadcast : PaneEventBus → PaneEvent → PaneEventBus
broadcast bus ev = record bus { tx = bus.tx ++ (ev ∷ []) }

unfoldable pub emit_event : PaneEventBus → Emission → PaneEventBus
emit_event bus e =
    let taken = fetch_seq bus in let ev = stamp taken.1 e in broadcast (push_ring taken.0 ev) ev

-- The supervisor's `emit` knows no agent.
unfoldable pub emit : PaneEventBus → ℕ → PaneEventKind → Option PaneStateKind → PaneEventBus
emit bus pane kind state =
    emit_event bus (record { pane_id = pane; kind = kind; state = state; agent = none })

unfoldable pub emit_all : PaneEventBus → List Emission → PaneEventBus
emit_all bus [] = bus
emit_all bus (e ∷ es) = emit_all (emit_event bus e) es

abbrev pub newer : ℕ → PaneEvent → Bool
newer after_seq ev = ltb after_seq ev.seq

unfoldable pub events_after : PaneEventBus → ℕ → List PaneEvent
events_after bus after_seq = filter (newer after_seq) bus.ring

-- What `recv` answers before the timeout; a lagged receiver finds the bus as it is then.
pub data Received : Type 0 where
  event : (ev : PaneEvent) → Received
  lagged : (bus : PaneEventBus) → Received
  channel_closed : Received

-- The wait for the first event, or for what a lagged receiver has missed.
unfoldable pub first_event : ℕ → List Received → List PaneEvent
first_event after_seq [] = []
first_event after_seq (event ev ∷ rest) =
    let later = first_event after_seq rest in if newer after_seq ev then ev ∷ [] else later
first_event after_seq (lagged bus ∷ rest) =
    let later = first_event after_seq rest in
    let missed = events_after bus after_seq in if is_empty missed then later else missed
first_event after_seq (channel_closed ∷ rest) = []

unfoldable pub coalesce : ℕ → List Received → List PaneEvent
coalesce after_seq (event ev ∷ rest) =
    let later = coalesce after_seq rest in if newer after_seq ev then ev ∷ later else []
coalesce after_seq _ = []

-- `live` is what arrives until the wait for the first event ends, by that event or by the timeout,
-- and `burst` what arrives behind it, each within a millisecond of the one before.
unfoldable pub next_pane_event : PaneEventBus → ℕ → List Received → List Received → List PaneEvent
next_pane_event bus after_seq live burst =
    let history = events_after bus after_seq in
    let first = first_event after_seq live in
    if is_empty history
    then (if is_empty first then [] else first ++ coalesce after_seq burst)
    else history
