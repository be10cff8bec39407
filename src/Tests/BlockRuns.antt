-- ===== src/Tests/BlockRuns.antt =====
-- A command `ls` whose output comes in two reads. The stand-in for the terminal parser takes a byte
-- above 127 for the marker of the letter 128 below it, and every other byte for a printed one.
use pyre.Prelude.{ℕ, ◌-◌, ◌≡◌, refl, List, [], ◌∷◌, none, some, ltb, if◌then◌else◌}
use pyre.Prelude.Int.{pos}
use pyre.Proto.{prompt_start, command_start, output_chunk, block_end}
use pyre.BlockParser.{
  Decoding, Action, print, osc, new, flush_block, flush_output, push_in, push_byte, push_bytes,
  start_prompt, start_command, end_block, finish_command, marker, osc_dispatch, perform,
  perform_all, feed, feed_all,
}
use pyre.BlockParser.Chunks.{chunk_data}
use pyre.BlockParser.Replayed.{written, calls, chunk_data-feed_all}
use pyre.BlockParser.Nesting.{Nested}
use pyre.BlockParser.Protocol.{feed_all-Nested}

abbrev decoding : Decoding
decoding = record { command_text = λ text. text; exit_code = λ text. some (pos 0) }

abbrev call : ℕ → Action
call b =
    if ltb 127 b
    then osc b ((49 ∷ 51 ∷ 51 ∷ []) ∷ ((b - 128) ∷ []) ∷ (48 ∷ []) ∷ [])
    else print (b ∷ [])

abbrev call_all : List ℕ → List Action
call_all [] = []
call_all (b ∷ bs) = call b ∷ call_all bs

abbrev advance : ℕ → List ℕ → ℕ × List Action
advance p bytes = (p, call_all bytes)

-- A, "ls", C, "x" in one read; "y", D in the next.
abbrev reads : List (List ℕ)
reads = (193 ∷ b'l' ∷ b's' ∷ 195 ∷ b'x' ∷ []) ∷ (b'y' ∷ 196 ∷ []) ∷ []

two_reads :
    (feed_all advance decoding (record { parser = 0; machine = new 7 }) reads).1
    ≡ prompt_start 7
      ∷ command_start 7 195 (b'l' ∷ b's' ∷ []) none
      ∷ output_chunk 195 (b'x' ∷ [])
      ∷ output_chunk 195 (b'y' ∷ [])
      ∷ block_end 195 (some (pos 0))
      ∷ []
unfolding feed_all feed new flush_block flush_output push_in push_byte push_bytes start_prompt
    start_command end_block finish_command marker osc_dispatch perform perform_all
two_reads = refl

chunk_data-feed_all_example :
    chunk_data (feed_all advance decoding (record { parser = 0; machine = new 7 }) reads).1
    ≡ b'x' ∷ b'y' ∷ []
unfolding written calls
chunk_data-feed_all_example = chunk_data-feed_all advance decoding 0 7 reads

feed_all-Nested_example :
    Nested none
      (feed_all advance decoding (record { parser = 0; machine = new 7 }) reads).1
      (feed_all advance decoding
        (record { parser = 0; machine = new 7 })
        reads).0.machine.current_block
feed_all-Nested_example = feed_all-Nested advance decoding 0 7 reads
