-- ===== src/BlockParser/Nesting.antt =====
-- The protocol of the events: a chunk and an end belong to the block that was started last and has
-- not ended, and a chunk is neither empty nor larger than the buffer.
use pyre.Prelude.{ℕ, ◌<◌, ◌≤◌, ◌≡◌, refl, sym, ap, subst, inl, inr, Bool-cases, arith}
use pyre.Prelude.{List, [], ◌∷◌, ◌++◌, not, ◌&&◌, ◌||◌}
use pyre.Prelude.{Option, none, some, get_or, get_elem?, length, length-append}
use pyre.Prelude.{leb, ◌==◌, is_empty}
use pyre.Prelude.Int.{ℤ}
use pyre.Prelude.Text.{same_bytes}
use pyre.Proto.{BlockEvent, prompt_start, command_start, output_chunk, block_end}
use pyre.BlockParser.{
  Decoding, BlockMachine, Action, print, execute, osc, output_flush_bytes, flush_block,
  flush_output, push_in, push_byte, push_bytes, start_prompt, start_command, end_block,
  finish_command, exit_param, marker, osc_dispatch, perform, perform_all,
}

-- `Nested o es p`: from the open block `o`, the events `es` lead to the open block `p`.
pub data Nested : Option ℕ → List BlockEvent → Option ℕ → Type 0 where
  begin : (o : Option ℕ) → Nested o [] o
  prompt :
      {o p : Option ℕ} {es : List BlockEvent} (session : ℕ)
      → Nested o es p
      → Nested o (es ++ (prompt_start session ∷ [])) none
  command :
      {o p : Option ℕ} {es : List BlockEvent} (session b : ℕ) (text : List ℕ)
      (cwd : Option (List ℕ))
      → Nested o es p
      → Nested o (es ++ (command_start session b text cwd ∷ [])) (some b)
  chunk :
      {o : Option ℕ} {es : List BlockEvent} (b : ℕ) (bytes : List ℕ)
      → Nested o es (some b)
      → 0 < length bytes
      → length bytes ≤ output_flush_bytes
      → Nested o (es ++ (output_chunk b bytes ∷ [])) (some b)
  finish :
      {o : Option ℕ} {es : List BlockEvent} (b : ℕ) (code : Option ℤ)
      → Nested o es (some b)
      → Nested o (es ++ (block_end b code ∷ [])) none

-- A machine whose pending events led from `o` to its block, with room for the next byte.
pub record Sound (o : Option ℕ) (m : BlockMachine) : Type 0 where
  pub nested : Nested o m.pending m.current_block
  pub room : length m.out_buf < output_flush_bytes

-- A flush, from a buffer that may be full.
flush_block-Nested :
    (o : Option ℕ) (m : BlockMachine) (c : Option ℕ)
    → Nested o m.pending c
    → m.current_block ≡ c
    → length m.out_buf ≤ output_flush_bytes
    → Nested o (flush_block m c).pending (flush_block m c).current_block
unfolding flush_block
flush_block-Nested o m none h e s = subst (Nested o m.pending) (sym e) h
flush_block-Nested o m (some b) h e s = go m.out_buf s
  where
    go :
        (l : List ℕ)
        → length l ≤ output_flush_bytes
        → let n = flush_block (record m { out_buf = l }) (some b) in
          Nested o n.pending n.current_block
    go [] s = subst (Nested o m.pending) (sym e) h
    go (x ∷ l) s = subst (Nested o _) (sym e) (chunk b (x ∷ l) h (omega arith) s)

flush_block-room :
    (m : BlockMachine) (c : Option ℕ) → length (flush_block m c).out_buf ≤ length m.out_buf
unfolding flush_block
flush_block-room m none = omega arith
flush_block-room m (some b) = elim (Bool-cases (not (is_empty m.out_buf))) [
  | inl e ↦ rw e (omega arith)
  | inr e ↦ rw e (omega arith)
]

flush_block_empties : (m : BlockMachine) (b : ℕ) → length (flush_block m (some b)).out_buf ≡ 0
unfolding flush_block
flush_block_empties m b = go m.out_buf
  where
    go : (l : List ℕ) → length (flush_block (record m { out_buf = l }) (some b)).out_buf ≡ 0
    go [] = refl
    go (x ∷ l) = refl

pub flush_output-Sound : (o : Option ℕ) (m : BlockMachine) → Sound o m → Sound o (flush_output m)
unfolding flush_output
flush_output-Sound o m h = record {
  nested = flush_block-Nested o m m.current_block h.nested refl (omega (arith, h.room));
  room = omega (arith, h.room, flush_block-room m m.current_block);
}

flush_at :
    (m : BlockMachine) (c : Option ℕ) → m.current_block ≡ c → flush_output m ≡ flush_block m c
unfolding flush_output
flush_at m c e = ap (flush_block m) e

push_in-Sound :
    (o : Option ℕ) (m : BlockMachine) (x : ℕ) (c : Option ℕ)
    → m.current_block ≡ c
    → Sound o m
    → Sound o (push_in m x c)
unfolding push_in
push_in-Sound o m x none e h = elim (Bool-cases (m.capturing_cmd && not (x == 0))) [
  | inl y ↦ rw y (record { nested = h.nested; room = h.room })
  | inr y ↦ rw y h
]
push_in-Sound o m x (some b) e h =
    elim (Bool-cases (leb output_flush_bytes (length (m.out_buf ++ (x ∷ []))) || (x == 10))) [
      | inl y ↦ rw y (subst (Sound o) (sym flush_b) flushed)
      | inr y ↦ rw y (record { nested = h.nested; room = ground (arith, y) })
    ]
  where
    pushed : BlockMachine
    pushed = record m { out_buf = m.out_buf ++ (x ∷ []) }

    flush_b : flush_output pushed ≡ flush_block pushed (some b)
    flush_b = flush_at pushed (some b) e

    flushed : Sound o (flush_block pushed (some b))
    flushed = record {
      nested =
          flush_block-Nested o pushed (some b) (subst (Nested o m.pending) e h.nested) e
            (omega (arith, h.room, length-append m.out_buf (x ∷ [])));
      room = omega (arith, flush_block_empties pushed b);
    }

push_byte-Sound : (o : Option ℕ) (m : BlockMachine) (x : ℕ) → Sound o m → Sound o (push_byte m x)
unfolding push_byte
push_byte-Sound o m x h = push_in-Sound o m x m.current_block refl h

push_bytes-Sound :
    (o : Option ℕ) (m : BlockMachine) (xs : List ℕ) → Sound o m → Sound o (push_bytes m xs)
unfolding push_bytes
push_bytes-Sound o m [] h = h
push_bytes-Sound o m (x ∷ xs) h = push_bytes-Sound o (push_byte m x) xs (push_byte-Sound o m x h)

start_prompt-Sound : (o : Option ℕ) (m : BlockMachine) → Sound o m → Sound o (start_prompt m)
unfolding start_prompt
start_prompt-Sound o m h =
    let flushed = flush_output-Sound o m h in
    record { nested = prompt m.session flushed.nested; room = flushed.room }

start_command-Sound :
    (dec : Decoding) (o : Option ℕ) (m : BlockMachine) (uuid : ℕ)
    → Sound o m
    → Sound o (start_command dec m uuid)
unfolding start_command
start_command-Sound dec o m uuid h = record {
  nested = command m.session uuid _ none h.nested;
  room = h.room;
}

end_block-Sound :
    (o : Option ℕ) (m : BlockMachine) (code : Option ℤ) (c : Option ℕ)
    → m.current_block ≡ c
    → Sound o m
    → Sound o (end_block m code c)
unfolding end_block
end_block-Sound o m code none e h = h
end_block-Sound o m code (some b) e h = record {
  nested = finish b code (subst (Nested o m.pending) e h.nested);
  room = h.room;
}

marker-Sound :
    (dec : Decoding) (o : Option ℕ) (m : BlockMachine) (uuid : ℕ) (sub : List ℕ)
    (param : Option (List ℕ))
    → Sound o m
    → Sound o (marker dec m uuid sub param)
unfolding marker finish_command
marker-Sound dec o m uuid [] param h = h
marker-Sound dec o m uuid (k ∷ _) param h = elim (Bool-cases (k == 65)) [
  | inl e ↦ rw e (start_prompt-Sound o m h)
  | inr e ↦ rw e (elim (Bool-cases (k == 66)) [
    | inl f ↦ rw f h
    | inr f ↦ rw f (elim (Bool-cases (k == 67)) [
      | inl g ↦ rw g (start_command-Sound dec o m uuid h)
      | inr g ↦ rw g (elim (Bool-cases (k == 68)) [
        | inl d ↦ rw d (
            end_block-Sound o (flush_output m) (exit_param dec param) _ refl
              (flush_output-Sound o m h))
        | inr d ↦ rw d h
      ])
    ])
  ])
]

osc_dispatch-Sound :
    (dec : Decoding) (o : Option ℕ) (m : BlockMachine) (uuid : ℕ) (params : List (List ℕ))
    → Sound o m
    → Sound o (osc_dispatch dec m uuid params)
unfolding osc_dispatch
osc_dispatch-Sound dec o m uuid [] h = h
osc_dispatch-Sound dec o m uuid (p ∷ ps) h = elim (Bool-cases (same_bytes p (49 ∷ 51 ∷ 51 ∷ []))) [
  | inl e ↦ rw e (marker-Sound dec o m uuid (get_or ps 0 []) (get_elem? ps 1) h)
  | inr e ↦ rw e h
]

pub perform_all-Sound :
    (dec : Decoding) (o : Option ℕ) (m : BlockMachine) (calls : List Action)
    → Sound o m
    → Sound o (perform_all dec m calls)
unfolding perform_all perform
perform_all-Sound dec o m [] h = h
perform_all-Sound dec o m (print utf8 ∷ rest) h =
    perform_all-Sound dec o (push_bytes m utf8) rest (push_bytes-Sound o m utf8 h)
perform_all-Sound dec o m (execute byte ∷ rest) h =
    perform_all-Sound dec o (push_byte m byte) rest (push_byte-Sound o m byte h)
perform_all-Sound dec o m (osc uuid params ∷ rest) h =
    perform_all-Sound dec o (osc_dispatch dec m uuid params) rest
      (osc_dispatch-Sound dec o m uuid params h)
