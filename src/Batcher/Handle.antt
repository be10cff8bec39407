-- ===== src/Batcher/Handle.antt =====
-- The events of one pane's block parser, and the end of a block.
use pyre.Prelude.{ℕ, ◌+◌, ◌-◌, ◌*◌, min, Bool, List, [], ◌∷◌, ◌++◌, Option, none, some}
use pyre.Prelude.{if◌then◌else◌, length, take, ltb}
use pyre.Prelude.Int.{ℤ}
use pyre.Proto.{BlockEvent, prompt_start, command_start, output_chunk, block_end}
use pyre.BlockParser.{BlockParser, Decoding, Action}
use pyre.Batcher.Keyed.{keys, insert, get, without_key}

-- The columns of a new block that are not constant.
pub record Block : Type 0 where
  pub id : ℕ
  pub pane : ℕ
  pub session : ℕ
  pub command : List ℕ
  pub cwd : Option (List ℕ)

-- The terminal parser, the decoding, the UUID of a session's name, and the answers of the store and
-- of the blob files for a block: whether it is created, its blob opened, written and closed, and its
-- end taken.
pub record Outside {ℓ} (P : Type ℓ) : Type ℓ where
  pub advance : P → List ℕ → P × List Action
  pub fresh_parser : P
  pub dec : Decoding
  pub session_uuid : ℕ → Option ℕ
  pub created : ℕ → Bool
  pub opened : ℕ → Bool
  pub wrote : ℕ → List ℕ → Bool
  pub closed : ℕ → Bool
  pub finalized : ℕ → Bool
  pub from_utf8 : List ℕ → Option (List ℕ)

-- The calls on the store and on the index, in their order. A block that the store did not create
-- leaves none; the end of a block says whether the store took it, and the code goes on either way.
pub data Call : Type 0 where
  create_block : (block : Block) → Call
  finalize_block : (block : ℕ) (exit_code : Option ℤ) (stdout_len : ℕ) (taken : Bool) → Call
  add_block : (block : Block) (stdout : List ℕ) → Call

-- A writer is the number of bytes written.
pub record PaneParserState {ℓ} (P : Type ℓ) : Type ℓ where
  pub parser : BlockParser P
  pub writers : List (ℕ × ℕ)
  pub stdout_bufs : List (ℕ × List ℕ)
  pub block_meta : List (ℕ × Block)
  pub pane_id : Option ℕ

abbrev pub index_cap : ℕ
index_cap = 256 * 1024

abbrev pub extend : ℕ → List ℕ → List ℕ → List ℕ
extend cap buf data_ =
    let remaining = cap - length buf in
    if ltb 0 remaining then buf ++ take (min (length data_) remaining) data_ else buf

-- The branch on the buffer.
abbrev pub buffer : ℕ → List ℕ → List (ℕ × List ℕ) → Option (List ℕ) → List (ℕ × List ℕ)
buffer block data_ bufs none = bufs
buffer block data_ bufs (some buf) = insert block (extend index_cap buf data_) bufs

-- `from_utf8(…).ok()` and `unwrap_or_default`
abbrev pub or_empty : Option (List ℕ) → List ℕ
or_empty none = []
or_empty (some text) = text

abbrev pub indexed : List ℕ → Option Block → List Call
indexed text none = []
indexed text (some b) = add_block b text ∷ []

module _ {ℓ} {P : Type ℓ} where
  abbrev pub block_ids : PaneParserState P → List ℕ
  block_ids st = keys st.block_meta

  -- The store took the block; its blob may still fail to open.
  unfoldable pub open_block : Outside P → PaneParserState P → Block → PaneParserState P
  open_block o st b = record st {
    writers = if o.opened b.id then insert b.id 0 st.writers else st.writers;
    stdout_bufs = insert b.id [] st.stdout_bufs;
    block_meta = insert b.id b st.block_meta;
  }

  -- The branch on the writer, which is dropped when it fails.
  abbrev append_blob : Outside P → ℕ → List ℕ → List (ℕ × ℕ) → Option ℕ → List (ℕ × ℕ)
  append_blob o block data_ writers none = writers
  append_blob o block data_ writers (some len) =
      if o.wrote block data_
      then insert block (len + length data_) writers
      else without_key block writers

  unfoldable pub add_output : Outside P → PaneParserState P → ℕ → List ℕ → PaneParserState P
  add_output o st block data_ = record st {
    stdout_bufs = buffer block data_ st.stdout_bufs (get block st.stdout_bufs);
    writers = append_blob o block data_ st.writers (get block st.writers);
  }

  -- `close().unwrap_or(0)`
  abbrev stdout_len : Outside P → ℕ → Option ℕ → ℕ
  stdout_len o block none = 0
  stdout_len o block (some len) = if o.closed block then len else 0

  abbrev stdout_text : Outside P → Option (List ℕ) → List ℕ
  stdout_text o none = []
  stdout_text o (some buf) = or_empty (o.from_utf8 buf)

  unfoldable pub finish_block :
      Outside P → PaneParserState P × List Call → ℕ → Option ℤ → PaneParserState P × List Call
  finish_block o (st, log) block exit_code = (
    record st {
      writers = without_key block st.writers;
      stdout_bufs = without_key block st.stdout_bufs;
      block_meta = without_key block st.block_meta;
    },
    (log
          ++ (finalize_block block exit_code (stdout_len o block (get block st.writers))
                (o.finalized block)
              ∷ []))
        ++ indexed (stdout_text o (get block st.stdout_bufs)) (get block st.block_meta),
  )

  -- One event of the parser.
  unfoldable pub handle :
      Outside P → ℕ → ℕ → PaneParserState P × List Call → BlockEvent → PaneParserState P × List Call
  handle o session pane (st, log) (prompt_start s) = (st, log)
  handle o session pane (st, log) (command_start s block command cwd) =
      let b : Block = record {
        id = block;
        pane = pane;
        session = session;
        command = command;
        cwd = cwd;
      } in
      if o.created block then (open_block o st b, log ++ (create_block b ∷ [])) else (st, log)
  handle o session pane (st, log) (output_chunk block data_) = (add_output o st block data_, log)
  handle o session pane (st, log) (block_end block exit_code) =
      finish_block o (st, log) block exit_code

  unfoldable pub handle_all :
      Outside P
      → ℕ
      → ℕ
      → PaneParserState P × List Call
      → List BlockEvent
      → PaneParserState P × List Call
  handle_all o session pane s [] = s
  handle_all o session pane s (e ∷ es) = handle_all o session pane (handle o session pane s e) es

  unfoldable pub finish_all :
      Outside P → PaneParserState P × List Call → List ℕ → PaneParserState P × List Call
  finish_all o s [] = s
  finish_all o s (block ∷ rest) = finish_all o (finish_block o s block none) rest
