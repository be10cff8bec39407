-- ===== src/Tests/BatchRuns.antt =====
-- The batcher at a worker that runs commands, with a stand-in for the terminal parser: a byte above
-- 127 is the marker of the letter 128 below it, and every other byte a printed one.
use pyre.Prelude.{ℕ, ◌-◌, ◌≡◌, refl, true, false, List, [], ◌∷◌, ◌++◌, none, some, map}
use pyre.Prelude.{ltb, contains, not, ◌==◌, if◌then◌else◌}
use pyre.Prelude.Int.{pos}
use pyre.Proto.{command_start, output_chunk, block_end}
use pyre.PaneIndex.{
  WorkerRegistry, get_or_alloc_pane_by_slot, alloc_unless_dead, register, is_dead, pane_id_by_slot,
}
use pyre.BlockParser.{
  Decoding, Action, print, osc, flush_block, flush_output, push_in, push_byte, push_bytes,
  start_command, end_block, finish_command, marker, osc_dispatch, perform, perform_all, feed,
}
use pyre.BlockParser
use pyre.Batcher.{
  RawEvent, Input, event, tick, finalize, channel_closed, start, new_state, feed_raw, process_at,
  process_in, process_raw_event, process_all, flush, finalize_one_pane_state, finalize_entry,
  finalize_pane, turn, run,
}
use pyre.Batcher.Handle.{
  Outside, Block, create_block, finalize_block, add_block, PaneParserState, open_block,
  finish_block, finish_all, handle, handle_all,
}
use pyre.Batcher.Unfinished.{left_open, untried, unfinished}
use pyre.Batcher.Drained.{run_finishes_blocks}
use pyre.Batcher.Recorded.{handle_all-command}

abbrev call : ℕ → Action
call b = if ltb 127 b then osc b ((49 ∷ 51 ∷ 51 ∷ []) ∷ ((b - 128) ∷ []) ∷ []) else print (b ∷ [])

-- Everything that is asked succeeds.
abbrev outside : Outside ℕ
outside = record {
  advance = λ p bytes. (p, map call bytes);
  fresh_parser = 0;
  dec = record { command_text = λ text. text; exit_code = λ text. some (pos 0) };
  session_uuid = λ name. some name;
  created = λ block. true;
  opened = λ block. true;
  wrote = λ block data_. true;
  closed = λ block. true;
  finalized = λ block. true;
  from_utf8 = λ bytes. some bytes;
}

abbrev registry : WorkerRegistry
registry = record {
  inner = [];
  panes = record { pane_to_slot = []; next_slot = []; dead_slots = [] };
}

-- The C marker of a command of the pane at slot 0 of session 5.
abbrev begins : RawEvent
begins = record { session_id = 5; slot_idx = 0; bytes = 195 ∷ []; fresh = 100 }

abbrev inputs : List Input
inputs = event begins ∷ tick ∷ event begins ∷ finalize 5 0 ∷ []

-- The store does not take the end of block 195.
abbrev refusing : Outside ℕ
refusing = record outside { finalized = λ block. not (block == 195) }

-- The block that is left then.
refused_end :
    unfinished (run refusing (start registry) (event begins ∷ finalize 5 0 ∷ [])).log ≡ 195 ∷ []
unfolding left_open run turn start flush process_all process_raw_event process_in process_at
    feed_raw new_state feed BlockParser.new perform_all perform osc_dispatch marker start_command
    flush_output flush_block handle_all handle open_block get_or_alloc_pane_by_slot
    alloc_unless_dead register is_dead pane_id_by_slot finalize_pane finalize_entry
    finalize_one_pane_state finish_all finish_block
refused_end = refl

run_finishes_blocks_example :
    let log = (run refusing (start registry) (inputs ++ (channel_closed ∷ []))).log in
    (untried log ≡ [])
    × ((block : ℕ) → contains (unfinished log) block ≡ true → not (block == 195) ≡ false)
run_finishes_blocks_example = run_finishes_blocks refusing registry inputs

-- An event that is still in the channel when its pane is finalized opens a block afterwards, which
-- only the end of the daemon will finish.
late_event :
    unfinished
      (run outside (start registry) (event begins ∷ finalize 5 0 ∷ event begins ∷ tick ∷ [])).log
    ≡ 195 ∷ []
unfolding left_open run turn start flush process_all process_raw_event process_in process_at
    feed_raw new_state feed BlockParser.new perform_all perform osc_dispatch marker start_command
    flush_output flush_block handle_all handle open_block get_or_alloc_pane_by_slot
    alloc_unless_dead register is_dead pane_id_by_slot finalize_pane finalize_entry
    finalize_one_pane_state finish_all finish_block
late_event = refl

abbrev command : Block
command = record { id = 195; pane = 100; session = 5; command = b'l' ∷ b's' ∷ []; cwd = none }

abbrev fresh : PaneParserState ℕ
unfolding new_state BlockParser.new
fresh = new_state 0 5

abbrev output : List (List ℕ)
output = (b'x' ∷ b'y' ∷ []) ∷ (b'z' ∷ []) ∷ []

handle_all-command_example :
    (handle_all outside 5 100
      (fresh, [])
      (command_start 5 195 (b'l' ∷ b's' ∷ []) none
        ∷ (map (output_chunk 195) output ++ (block_end 195 (some (pos 0)) ∷ [])))).1
    ≡ create_block command
      ∷ finalize_block 195 (some (pos 0)) 3 true
      ∷ add_block command (b'x' ∷ b'y' ∷ b'z' ∷ [])
      ∷ []
handle_all-command_example =
    handle_all-command outside command fresh [] output (some (pos 0)) refl refl (λ d. refl) refl
