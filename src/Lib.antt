-- ===== src/Lib.antt =====
-- Verification of pyre, a terminal multiplexer written in Rust: a daemon that owns every
-- pseudo-terminal (crates/pyred), a wire protocol with the shared layout tree (crates/pyre-proto),
-- and clients that show the panes (crates/pyre-tui, crates/pyre-gpu and others).
--
-- The daemon reads a pane's output, keeps the last bytes of it for clients that attach later
-- (RingBuf), cuts it into command blocks at the shell's OSC 133 markers (BlockParser), and tells from
-- markers, process and silence what the pane is doing (StateTracker). Changes go over the bus of pane
-- events (EventBus), which clients poll with the number of the last event they saw. In the hybrid mode
-- a supervisor routes a pane to a slot of a worker process (PaneIndex), and when a worker reports the
-- end of a pane it updates this index, the window's layout and the bus (PaneClosed); the output that
-- the workers send it becomes blocks in the store (Batcher). Without workers one process keeps the
-- sessions, windows and panes itself (Sessions). A layout is a tree
-- of splits (Layout), which daemon and clients share.
--
-- The files, and the code they model:
-- - Prelude: shared names, Boolean tests, lists over the native numbers, integers, wrap-around, text.
-- - Proto: the enums and events of crates/pyre-proto/src/sessions.rs, service.rs and blocks.rs.
-- - Layout: LayoutNode of crates/pyre-proto/src/layout.rs. Layout/Tree, Edit, Geometry and Weights
--   hold the definitions, the other files below Layout their properties.
-- - RingBuf: crates/pyred/src/ringbuf.rs.
-- - Attach: handle_stream of crates/pyred/src/stream.rs with the reader thread of spawn_pty in
--   crates/pyred/src/pty.rs, as steps in any order.
-- - EventBus: PaneEventBus and next_pane_event of crates/pyred/src/supervisor.rs, emit_event and
--   events_after of crates/pyred/src/session.rs.
-- - PaneIndex: PaneIndex and WorkerRegistry of crates/pyred/src/supervisor.rs, with the SIGCHLD handler
--   and the heartbeat monitor in PaneIndex/Respawn, and connect_worker_ctrl in PaneIndex/Connect.
-- - PaneClosed: the pane_closed callback and the RPC close_pane of crates/pyred/src/supervisor.rs.
-- - BlockParser: crates/pyred/src/parser.rs.
-- - StateTracker: PaneStateTracker of crates/pyred/src/state.rs.
-- - Deck: crates/pyre-tui/src/model/toast.rs and crates/pyre-gpu/src/toast.rs.
-- - Selection: crates/pyre-tui/src/model/selection.rs.
-- - PaneOps: close_pane_inner of crates/pyre-tui/src/app/pane_ops.rs, with tab_reorder of
--   crates/pyre-tui/src/model/tab.rs and focus_next and the lookups of model/layout.rs.
-- - Sessions: the session registry of crates/pyred/src/session.rs: opening, splitting, weighing,
--   renaming, closing and the lists, with what goes to the store and to the bus in one sequence of
--   effects, and the rows that spawn_pty of crates/pyred/src/pty.rs writes when the process runs. An
--   entry of the sequence says that the call was made and came back; a write that the code only warns
--   about may have failed, one whose refusal the code passes on was taken.
-- - Batcher: block_event_batcher and what it calls in crates/pyred/src/supervisor.rs: the raw output of
--   the workers through one BlockParser per pane to the store and the index. What its loop waits for is
--   a list of inputs in any order; the log says whether the store took the end of a block.
-- - Git: parse_porcelain of crates/pyred/src/git.rs.
-- - Handshake: crates/pyre-proto/src/handshake.rs.
-- - Tests: runs on concrete inputs.
--
-- Conventions: a method that changes its receiver returns the new one. UUIDs and session names are
-- numbers that are only compared; a fresh UUID and the time are arguments. Machine integers wrap
-- around where the source's do in a release build; a sum of a time and a duration that the clock
-- cannot represent panics, which set_override answers with none. A hash map is an association list. Libraries (the
-- terminal parser, the text decoding, the broadcast channel, the database) are arguments. Loops of the
-- modelled code are recursions on a list or a tree, or on the number of attempts that a range leaves
-- (PaneIndex/Connect, whose theorem covers all ten). The digits of a number (Sessions.decimal) are
-- made with fuel 10, enough for a u32, which has at most ten.
--
-- Not modelled: the processes, sockets and pseudo-terminals themselves, the SQLite store and the
-- Tantivy index, the serialised formats (derived by serde), and all rendering.
pub mod Prelude
pub mod Attach
pub mod Batcher
pub mod BlockParser
pub mod Deck
pub mod EventBus
pub mod Git
pub mod Handshake
pub mod Layout
pub mod PaneClosed
pub mod PaneIndex
pub mod PaneOps
pub mod Proto
pub mod RingBuf
pub mod Selection
pub mod Sessions
pub mod StateTracker
pub mod Tests
