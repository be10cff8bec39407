-- ===== src/Batcher.antt =====
-- The batcher of block events in the supervisor (crates/pyred/src/supervisor.rs): it feeds the raw
-- output of the workers to one block parser per pane, writes the blocks that the parser reports to
-- the store and the index, and finishes those that are open when a pane closes or the daemon stops.
-- The terminal parser, the decoding, the store's answers and the blob files are arguments; the times
-- are left out.
pub mod Keyed
pub mod Handle
pub mod Unfinished
pub mod Entries
pub mod Drained
pub mod Recorded
pub use Handle.*
use pyre.Prelude.{
  ℕ, Bool, true, false, List, [], ◌∷◌, ◌++◌, Option, none, some, if◌then◌else◌, ◌==◌, ◌&&◌,
}
use pyre.Prelude.{is_empty}
use pyre.PaneIndex.{WorkerRegistry, get_or_alloc_pane_by_slot}
use pyre.BlockParser
use pyre.BlockParser.{BlockParser, feed}
use pyre.Batcher.Handle.{Outside, Call, PaneParserState, handle_all, finish_all, block_ids}

-- What a worker sent; `fresh` is the UUID that its first event draws for the pane.
pub record RawEvent : Type 0 where
  pub session_id : ℕ
  pub slot_idx : ℕ
  pub bytes : List ℕ
  pub fresh : ℕ

pub record ParserEntry {ℓ} (P : Type ℓ) : Type ℓ where
  pub session_id : ℕ
  pub slot_idx : ℕ
  pub state : PaneParserState P

pub record Batcher {ℓ} (P : Type ℓ) : Type ℓ where
  pub pane_parsers : List (ParserEntry P)
  pub pending : List RawEvent
  pub registry : WorkerRegistry
  pub log : List Call

-- The pane of the slot is looked up once; a slot that was closed before has none.
abbrev resolve : WorkerRegistry → RawEvent → Option ℕ → WorkerRegistry × Option ℕ
resolve registry raw (some pane) = (registry, some pane)
resolve registry raw none = get_or_alloc_pane_by_slot registry raw.fresh raw.session_id raw.slot_idx

module _ {ℓ} {P : Type ℓ} where
  unfoldable pub start : WorkerRegistry → Batcher P
  start registry = record { pane_parsers = []; pending = []; registry = registry; log = [] }

  unfoldable pub new_state : P → ℕ → PaneParserState P
  new_state parser session = record {
    parser = record { parser = parser; machine = BlockParser.new session };
    writers = [];
    stdout_bufs = [];
    block_meta = [];
    pane_id = none;
  }

  abbrev pub is_entry : ℕ → ℕ → ParserEntry P → Bool
  is_entry session slot e = (e.session_id == session) && (e.slot_idx == slot)

  -- `entry(key).or_insert_with(…)`, read and written back.
  abbrev pub state_of : List (ParserEntry P) → ℕ → ℕ → PaneParserState P → PaneParserState P
  state_of [] session slot default = default
  state_of (e ∷ es) session slot default =
      if is_entry session slot e then e.state else state_of es session slot default

  abbrev pub put_state : List (ParserEntry P) → ℕ → ℕ → PaneParserState P → List (ParserEntry P)
  put_state [] session slot st = record { session_id = session; slot_idx = slot; state = st } ∷ []
  put_state (e ∷ es) session slot st =
      if is_entry session slot e
      then record e { state = st } ∷ es
      else e ∷ put_state es session slot st

  unfoldable pub feed_raw :
      Outside P → List Call → PaneParserState P → ℕ → ℕ → List ℕ → PaneParserState P × List Call
  feed_raw o log st session pane bytes =
      let fed = if is_empty bytes then (st.parser, []) else feed o.advance o.dec st.parser bytes in
      handle_all o session pane (record st { parser = fed.0; pane_id = some pane }, log) fed.1

  -- The branch on the pane.
  unfoldable pub process_at :
      Outside P
      → Batcher P
      → RawEvent
      → ℕ
      → PaneParserState P
      → WorkerRegistry × Option ℕ
      → Batcher P
  process_at o b raw session st (registry, none) = record b {
    pane_parsers = put_state b.pane_parsers raw.session_id raw.slot_idx st;
    registry = registry;
  }
  process_at o b raw session st (registry, some pane) =
      let handled = feed_raw o b.log st session pane raw.bytes in
      record b {
        pane_parsers = put_state b.pane_parsers raw.session_id raw.slot_idx handled.0;
        registry = registry;
        log = handled.1;
      }

  -- The branch on the session's UUID.
  unfoldable pub process_in : Outside P → Batcher P → RawEvent → Option ℕ → Batcher P
  process_in o b raw none = b
  process_in o b raw (some session) =
      let st =
        state_of b.pane_parsers raw.session_id raw.slot_idx (new_state o.fresh_parser session) in
      process_at o b raw session st (resolve b.registry raw st.pane_id)

  unfoldable pub process_raw_event : Outside P → Batcher P → RawEvent → Batcher P
  process_raw_event o b raw = process_in o b raw (o.session_uuid raw.session_id)

  unfoldable pub process_all : Outside P → Batcher P → List RawEvent → Batcher P
  process_all o b [] = b
  process_all o b (raw ∷ rest) = process_all o (process_raw_event o b raw) rest

  -- `mem::take(&mut pending)` and its events.
  unfoldable pub flush : Outside P → Batcher P → Batcher P
  flush o b = process_all o (record b { pending = [] }) b.pending

  -- `block_meta` is the set of the open blocks.
  unfoldable pub finalize_one_pane_state :
      Outside P → PaneParserState P × List Call → PaneParserState P × List Call
  finalize_one_pane_state o (st, log) = finish_all o (st, log) (block_ids st)

  unfoldable pub finalize_entries :
      Outside P → List (ParserEntry P) → List Call → List (ParserEntry P) × List Call
  finalize_entries o [] log = ([], log)
  finalize_entries o (e ∷ es) log =
      let done = finalize_one_pane_state o (e.state, log) in
      let rest = finalize_entries o es done.1 in (record e { state = done.0 } ∷ rest.0, rest.1)

  -- `pane_parsers.get_mut(&key)`
  unfoldable pub finalize_entry :
      Outside P → List (ParserEntry P) → ℕ → ℕ → List Call → List (ParserEntry P) × List Call
  finalize_entry o [] session slot log = ([], log)
  finalize_entry o (e ∷ es) session slot log =
      let done = finalize_one_pane_state o (e.state, log) in
      let rest = finalize_entry o es session slot log in
      if is_entry session slot e
      then (record e { state = done.0 } ∷ es, done.1)
      else (e ∷ rest.0, rest.1)

  unfoldable pub finalize_pane : Outside P → Batcher P → ℕ → ℕ → Batcher P
  finalize_pane o b session slot =
      let done = finalize_entry o b.pane_parsers session slot b.log in
      record b { pane_parsers = done.0; log = done.1 }

  unfoldable pub finalize_open_blocks : Outside P → Batcher P → Batcher P
  finalize_open_blocks o b =
      let done = finalize_entries o b.pane_parsers b.log in
      record b { pane_parsers = done.0; log = done.1 }

-- What the loop of the batcher waits for; the channel of the events closes when the daemon stops.
pub data Input : Type 0 where
  event : (raw : RawEvent) → Input
  tick : Input
  finalize : (session slot : ℕ) → Input
  channel_closed : Input

module _ {ℓ} {P : Type ℓ} where
  unfoldable pub turn : Outside P → Batcher P → Input → Batcher P
  turn o b (event raw) = record b { pending = b.pending ++ (raw ∷ []) }
  turn o b tick = flush o b
  turn o b (finalize session slot) = finalize_pane o (flush o b) session slot
  turn o b channel_closed = finalize_open_blocks o (flush o b)

  -- The loop returns when the channel is closed.
  unfoldable pub run : Outside P → Batcher P → List Input → Batcher P
  run o b [] = b
  run o b (channel_closed ∷ rest) = turn o b channel_closed
  run o b (event raw ∷ rest) = run o (turn o b (event raw)) rest
  run o b (tick ∷ rest) = run o (turn o b tick) rest
  run o b (finalize session slot ∷ rest) = run o (turn o b (finalize session slot)) rest
