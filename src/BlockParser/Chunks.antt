-- ===== src/BlockParser/Chunks.antt =====
-- One byte, one flush and one marker: the block that is open and the bytes that are captured.
use pyre.Prelude.{ℕ, ◌<◌, ◌≡◌, refl, sym, ap, ◌∙◌, inl, inr, arith, Bool-cases}
use pyre.Prelude.{List, [], ◌∷◌, ◌++◌, append-nil, append_assoc, Bool, true, false, not}
use pyre.Prelude.{Option, none, some, if◌then◌else◌, length, is_empty}
use pyre.Proto.{BlockEvent, prompt_start, command_start, output_chunk, block_end}
use pyre.BlockParser.{BlockMachine, output_flush_bytes, flush_block, flush_output}

-- The output bytes of a list of events.
abbrev pub chunk_data : List BlockEvent → List ℕ
chunk_data [] = []
chunk_data (output_chunk block bytes ∷ es) = bytes ++ chunk_data es
chunk_data (prompt_start _ ∷ es) = chunk_data es
chunk_data (command_start _ _ _ _ ∷ es) = chunk_data es
chunk_data (block_end _ _ ∷ es) = chunk_data es

pub chunk_data-append :
    (es fs : List BlockEvent) → chunk_data (es ++ fs) ≡ chunk_data es ++ chunk_data fs
chunk_data-append [] fs = refl
chunk_data-append (output_chunk block bytes ∷ es) fs =
    ap (λ l. bytes ++ l) (chunk_data-append es fs)
    ∙ sym (append_assoc bytes (chunk_data es) (chunk_data fs))
chunk_data-append (prompt_start _ ∷ es) fs = chunk_data-append es fs
chunk_data-append (command_start _ _ _ _ ∷ es) fs = chunk_data-append es fs
chunk_data-append (block_end _ _ ∷ es) fs = chunk_data-append es fs

-- The output that left the machine and the output it still holds.
abbrev pub captured : BlockMachine → List ℕ
captured m = chunk_data m.pending ++ m.out_buf

abbrev pub is_open : Option ℕ → Bool
is_open none = false
is_open (some _) = true

-- The block of the machine is `o`, and only an open block has output waiting.
pub record Holding (o : Option ℕ) (m : BlockMachine) : Type 0 where
  pub block : m.current_block ≡ o
  pub idle : (if is_open o then [] else m.out_buf) ≡ []
  pub short : length m.out_buf < output_flush_bytes

pub flushed-empty : (m : BlockMachine) (b : ℕ) → (flush_block m (some b)).out_buf ≡ []
unfolding flush_block
flushed-empty m b = go m.out_buf
  where
    go : (l : List ℕ) → (flush_block (record m { out_buf = l }) (some b)).out_buf ≡ []
    go [] = refl
    go (x ∷ l) = refl

pub captured-flush_block :
    (m : BlockMachine) (o : Option ℕ) → captured (flush_block m o) ≡ captured m
unfolding flush_block
captured-flush_block m none = refl
captured-flush_block m (some b) = go m.out_buf
  where
    go :
        (l : List ℕ)
        → captured (flush_block (record m { out_buf = l }) (some b)) ≡ chunk_data m.pending ++ l
    go [] = refl
    go (x ∷ l) =
        append-nil (chunk_data (m.pending ++ (output_chunk b (x ∷ l) ∷ [])))
        ∙ chunk_data-append m.pending (output_chunk b (x ∷ l) ∷ [])
        ∙ ap (λ k. chunk_data m.pending ++ k) (append-nil (x ∷ l))

pub block-flush_block :
    (m : BlockMachine) (o : Option ℕ) → (flush_block m o).current_block ≡ m.current_block
unfolding flush_block
block-flush_block m none = refl
block-flush_block m (some b) = elim (Bool-cases (not (is_empty m.out_buf))) [
  | inl e ↦ rw e refl
  | inr e ↦ rw e refl
]

pub flush_block-Holding :
    (m : BlockMachine) (o : Option ℕ) → Holding o m → Holding o (flush_block m o)
unfolding flush_block
flush_block-Holding m none h = h
flush_block-Holding m (some b) h = record {
  block = block-flush_block m (some b) ∙ h.block;
  idle = refl;
  short = rw (flushed-empty m b) (omega arith);
}

pub flush_output-eq :
    (m : BlockMachine) (o : Option ℕ) → Holding o m → flush_output m ≡ flush_block m o
unfolding flush_output
flush_output-eq m o h = ap (flush_block m) h.block
