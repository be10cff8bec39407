-- ===== src/BlockParser.antt =====
-- The block parser (crates/pyred/src/parser.rs): the machine that cuts a pane's output into command
-- blocks at the shell's OSC 133 markers. The terminal parser that calls it, the decoding of text
-- and the UUIDs are libraries': an action of the terminal parser is an argument, with the bytes of
-- a printed character and the UUID that a marker draws, and the decoding is a record of functions.
pub mod Chunks
pub mod Steps
pub mod Replayed
pub mod Nesting
pub mod Protocol
use pyre.Prelude.{ℕ, Bool, true, false, List, [], ◌∷◌, ◌++◌, Option, none, some}
use pyre.Prelude.{not, ◌&&◌, ◌||◌, leb, ◌==◌, if◌then◌else◌, length, get_or, get_elem?, is_empty}
use pyre.Prelude.Int.{ℤ}
use pyre.Prelude.Text.{same_bytes}
use pyre.Proto.{BlockEvent, prompt_start, command_start, output_chunk, block_end}

abbrev pub output_flush_bytes : ℕ
output_flush_bytes = 4096

-- `String::from_utf8_lossy` with `trim_end`, and `from_utf8`, `trim` and `parse::<i32>`.
pub record Decoding : Type 0 where
  pub command_text : List ℕ → List ℕ
  pub exit_code : List ℕ → Option ℤ

pub record BlockMachine : Type 0 where
  pub session : ℕ
  pub current_block : Option ℕ
  pub cmd_buf : List ℕ
  pub capturing_cmd : Bool
  pub out_buf : List ℕ
  pub pending : List BlockEvent

unfoldable pub new : ℕ → BlockMachine
new session = record {
  session = session;
  current_block = none;
  cmd_buf = [];
  capturing_cmd = false;
  out_buf = [];
  pending = [];
}

-- The branch on the current block.
unfoldable pub flush_block : BlockMachine → Option ℕ → BlockMachine
flush_block m none = m
flush_block m (some block) =
    if not (is_empty m.out_buf)
    then record m { out_buf = []; pending = m.pending ++ (output_chunk block m.out_buf ∷ []) }
    else m

unfoldable pub flush_output : BlockMachine → BlockMachine
flush_output m = flush_block m m.current_block

-- The branch on the current block; a newline is 10.
unfoldable pub push_in : BlockMachine → ℕ → Option ℕ → BlockMachine
push_in m b (some block) =
    let pushed = record m { out_buf = m.out_buf ++ (b ∷ []) } in
    if leb output_flush_bytes (length pushed.out_buf) || (b == 10)
    then flush_output pushed
    else pushed
push_in m b none =
    if m.capturing_cmd && not (b == 0) then record m { cmd_buf = m.cmd_buf ++ (b ∷ []) } else m

unfoldable pub push_byte : BlockMachine → ℕ → BlockMachine
push_byte m b = push_in m b m.current_block

unfoldable pub push_bytes : BlockMachine → List ℕ → BlockMachine
push_bytes m [] = m
push_bytes m (b ∷ bs) = push_bytes (push_byte m b) bs

-- The markers A, C and D of `osc_dispatch`.
unfoldable pub start_prompt : BlockMachine → BlockMachine
start_prompt m =
    let flushed = flush_output m in
    record flushed {
      cmd_buf = [];
      capturing_cmd = true;
      current_block = none;
      pending = flushed.pending ++ (prompt_start m.session ∷ []);
    }

unfoldable pub start_command : Decoding → BlockMachine → ℕ → BlockMachine
start_command dec m uuid = record m {
  cmd_buf = [];
  capturing_cmd = false;
  current_block = some uuid;
  pending = m.pending ++ (command_start m.session uuid (dec.command_text m.cmd_buf) none ∷ []);
}

unfoldable pub end_block : BlockMachine → Option ℤ → Option ℕ → BlockMachine
end_block m exit_code none = m
end_block m exit_code (some block) = record m {
  current_block = none;
  pending = m.pending ++ (block_end block exit_code ∷ []);
}

abbrev pub exit_param : Decoding → Option (List ℕ) → Option ℤ
exit_param dec none = none
exit_param dec (some p) = dec.exit_code p

unfoldable pub finish_command : Decoding → BlockMachine → Option (List ℕ) → BlockMachine
finish_command dec m param =
    let flushed = flush_output m in end_block flushed (exit_param dec param) flushed.current_block

-- The dispatch on the first byte of the second parameter.
unfoldable pub marker : Decoding → BlockMachine → ℕ → List ℕ → Option (List ℕ) → BlockMachine
marker dec m uuid [] param = m
marker dec m uuid (k ∷ _) param =
    if k == 65
    then start_prompt m
    else if k == 66
    then m
    else if k == 67
    then start_command dec m uuid
    else if k == 68
    then finish_command dec m param
    else m

unfoldable pub osc_dispatch : Decoding → BlockMachine → ℕ → List (List ℕ) → BlockMachine
osc_dispatch dec m uuid [] = m
osc_dispatch dec m uuid (p ∷ ps) =
    if same_bytes p (49 ∷ 51 ∷ 51 ∷ [])
    then marker dec m uuid (get_or ps 0 []) (get_elem? ps 1)
    else m

-- What the terminal parser calls.
pub data Action : Type 0 where
  print : (utf8 : List ℕ) → Action
  execute : (byte : ℕ) → Action
  osc : (uuid : ℕ) (params : List (List ℕ)) → Action

unfoldable pub perform : Decoding → BlockMachine → Action → BlockMachine
perform dec m (print utf8) = push_bytes m utf8
perform dec m (execute byte) = push_byte m byte
perform dec m (osc uuid params) = osc_dispatch dec m uuid params

unfoldable pub perform_all : Decoding → BlockMachine → List Action → BlockMachine
perform_all dec m [] = m
perform_all dec m (a ∷ rest) = perform_all dec (perform dec m a) rest

pub record BlockParser {ℓ} (P : Type ℓ) : Type ℓ where
  pub parser : P
  pub machine : BlockMachine

-- The events that `out` is given: what is pending after the bytes and a flush.
unfoldable pub feed {ℓ} :
    {P : Type ℓ}
    → (P → List ℕ → P × List Action)
    → Decoding
    → BlockParser P
    → List ℕ
    → BlockParser P × List BlockEvent
feed advance dec p bytes =
    let advanced = advance p.parser bytes in
    let m = flush_output (perform_all dec p.machine advanced.1) in
    (record { parser = advanced.0; machine = record m { pending = [] } }, m.pending)

-- The reader thread feeds its chunks one by one.
unfoldable pub feed_all {ℓ} :
    {P : Type ℓ}
    → (P → List ℕ → P × List Action)
    → Decoding
    → BlockParser P
    → List (List ℕ)
    → BlockParser P × List BlockEvent
feed_all advance dec p [] = (p, [])
feed_all advance dec p (c ∷ cs) =
    let fed = feed advance dec p c in
    let rest = feed_all advance dec fed.0 cs in (rest.0, fed.1 ++ rest.1)
