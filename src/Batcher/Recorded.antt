-- ===== src/Batcher/Recorded.antt =====
-- What the store and the index are told of one command.
use pyre.Prelude.{
  ℕ, suc, zero, ◌+◌, ◌-◌, min, ◌≡◌, refl, sym, ap, subst, ◌∙◌, inl, inr, arith, true,
}
use pyre.Prelude.{
  Bool-cases, ==_refl, List, [], ◌∷◌, ◌++◌, append_assoc, append-nil, map, Option, some,
}
use pyre.Prelude.{if◌then◌else◌, ltb, length, length-append, take, flatten}
use pyre.Prelude.Int.{ℤ}
use pyre.Proto.{command_start, output_chunk, block_end}
use pyre.Batcher.Keyed.{insert, get}
use pyre.Batcher.Handle.{
  Outside, Block, Call, create_block, finalize_block, add_block, PaneParserState, index_cap, extend,
  open_block, add_output, finish_block, handle, handle_all, or_empty,
}

-- Numbers that are equal take the same.
take-eq : {m n : ℕ} (d : List ℕ) → m ≡ n → take m d ≡ take n d
take-eq d e = ap (λ k. take k d) e

take-min : (r : ℕ) (d : List ℕ) → take (min (length d) r) d ≡ take r d
take-min zero [] = refl
take-min (suc r) [] = take-eq [] (the_zero r)
  where
    the_zero : (k : ℕ) → min 0 (suc k) ≡ 0
    the_zero k = omega arith
take-min zero (x ∷ d) =
    (let same : min (suc (length d)) 0 ≡ 0 = omega arith in take-eq (x ∷ d) same)
take-min (suc r) (x ∷ d) =
    let grown : min (suc (length d)) (suc r) ≡ suc (min (length d) r) = omega arith in
    take-eq (x ∷ d) grown ∙ ap (λ ys. x ∷ ys) (take-min r d)

-- Extending the start of a text by a chunk gives the start of the longer text.
take-append :
    (limit : ℕ) (xs d : List ℕ)
    → take limit (xs ++ d) ≡ take limit xs ++ take (limit - length (take limit xs)) d
take-append zero xs d = refl
take-append (suc limit) [] d = let same : suc limit ≡ suc limit - 0 = omega arith in take-eq d same
take-append (suc limit) (x ∷ xs) d =
    ap (λ ys. x ∷ ys)
      (take-append limit xs d ∙ ap (λ ys. take limit xs ++ ys) (take-eq d (omega arith)))

extend-take : (limit : ℕ) (xs d : List ℕ) → extend limit (take limit xs) d ≡ take limit (xs ++ d)
extend-take limit xs d = elim (Bool-cases (ltb 0 (limit - length (take limit xs)))) [
  | inl e ↦ rw e (ap (λ ys. take limit xs ++ ys) (take-min _ d) ∙ sym (take-append limit xs d))
  | inr e ↦
      let full : limit - length (take limit xs) ≡ 0 = ground (arith, e) in
      rw e (
        sym (
          take-append limit xs d
          ∙ ap (λ ys. take limit xs ++ ys) (take-eq d full)
          ∙ append-nil (take limit xs)))
]

get-insert {ℓ} : {A : Type ℓ} (k : ℕ) (a : A) (kvs : List (ℕ × A)) → get k (insert k a kvs) ≡ some a
get-insert k a kvs = rw (==_refl k) refl

-- In the state `st` the block is open, and `text` has come out of it.
record Holds {ℓ} {P : Type ℓ} (b : Block) (text : List ℕ) (st : PaneParserState P) : Type 0 where
  writer : get b.id st.writers ≡ some (length text)
  buf : get b.id st.stdout_bufs ≡ some (take index_cap text)
  meta : get b.id st.block_meta ≡ some b

module _ {ℓ} {P : Type ℓ} (o : Outside P) (b : Block) where
  open_block-Holds :
      (st : PaneParserState P) → o.opened b.id ≡ true → Holds b [] (open_block o st b)
  unfolding open_block
  open_block-Holds st e = record {
    writer = rw e (get-insert b.id 0 st.writers);
    buf = get-insert b.id [] st.stdout_bufs;
    meta = get-insert b.id b st.block_meta;
  }

  add_output-Holds :
      (st : PaneParserState P) (text d : List ℕ)
      → o.wrote b.id d ≡ true
      → Holds b text st
      → Holds b (text ++ d) (add_output o st b.id d)
  unfolding add_output
  add_output-Holds st text d ok h = record {
    writer =
        rw (h.writer, ok) (get-insert b.id (length text + length d) st.writers)
        ∙ ap some (sym (length-append text d));
    buf =
        rw h.buf (get-insert b.id (extend index_cap (take index_cap text) d) st.stdout_bufs)
        ∙ ap some (extend-take index_cap text d);
    meta = h.meta;
  }

  -- The chunks and the end.
  handle_all-end :
      (session pane : ℕ) (st : PaneParserState P) (log : List Call) (text : List ℕ)
      (cs : List (List ℕ)) (exit_code : Option ℤ)
      → ((d : List ℕ) → o.wrote b.id d ≡ true)
      → o.closed b.id ≡ true
      → Holds b text st
      → (handle_all o session pane
          (st, log)
          (map (output_chunk b.id) cs ++ (block_end b.id exit_code ∷ []))).1
        ≡ log
          ++ (finalize_block b.id exit_code (length (text ++ flatten cs)) (o.finalized b.id)
              ∷ add_block b (or_empty (o.from_utf8 (take index_cap (text ++ flatten cs))))
              ∷ [])
  unfolding handle_all handle finish_block
  handle_all-end session pane st log text [] exit_code wrote closed h =
      rw (h.writer, h.buf, h.meta, closed, append-nil text) (append_assoc log _ _)
  handle_all-end session pane st log text (d ∷ cs) exit_code wrote closed h =
      subst
        (λ all.
          (handle_all o session pane (add_output o st b.id d, log)
            (map (output_chunk b.id) cs ++ (block_end b.id exit_code ∷ []))).1
          ≡ log
            ++ (finalize_block b.id exit_code (length all) (o.finalized b.id)
                ∷ add_block b (or_empty (o.from_utf8 (take index_cap all)))
                ∷ []))
        (append_assoc text d (flatten cs))
        (handle_all-end session pane (add_output o st b.id d) log (text ++ d) cs exit_code wrote
          closed (add_output-Holds st text d (wrote d) h))

  -- A command that the parser starts and ends and that the store takes, with its blob opened, written
  -- and closed, is created, finalized with the number of all bytes of its output, and indexed with
  -- the text of their first 256 KiB, or with no text where those are not UTF-8; it is indexed also
  -- where the store does not take its end.
  pub handle_all-command :
      (st : PaneParserState P) (log : List Call) (cs : List (List ℕ)) (exit_code : Option ℤ)
      → o.created b.id ≡ true
      → o.opened b.id ≡ true
      → ((d : List ℕ) → o.wrote b.id d ≡ true)
      → o.closed b.id ≡ true
      → (handle_all o b.session b.pane
          (st, log)
          (command_start b.session b.id b.command b.cwd
            ∷ (map (output_chunk b.id) cs ++ (block_end b.id exit_code ∷ [])))).1
        ≡ log
          ++ (create_block b
              ∷ finalize_block b.id exit_code (length (flatten cs)) (o.finalized b.id)
              ∷ add_block b (or_empty (o.from_utf8 (take index_cap (flatten cs))))
              ∷ [])
  unfolding handle_all handle
  handle_all-command st log cs exit_code created opened wrote closed =
      ap
        (λ c.
          (handle_all o b.session b.pane
            (if c then (open_block o st b, log ++ (create_block b ∷ [])) else (st, log))
            (map (output_chunk b.id) cs ++ (block_end b.id exit_code ∷ []))).1)
        created
      ∙ handle_all-end b.session b.pane (open_block o st b) (log ++ (create_block b ∷ [])) [] cs
          exit_code wrote closed (open_block-Holds st opened)
      ∙ append_assoc log (create_block b ∷ []) _
