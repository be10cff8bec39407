-- ===== src/Batcher/Unfinished.antt =====
-- The blocks that the calls on the store created and did not end, and how the events of a pane
-- change them.
use pyre.Prelude.{ℕ, ◌≡◌, refl, ap, subst, ◌∙◌, inl, inr, arith, true, false, ◌||◌}
use pyre.Prelude.{
  Bool, Bool-cases, sym, ==_iff, if◌then◌else◌, List, [], ◌∷◌, ◌++◌, Option, none, some,
}
use pyre.Prelude.{◌==◌, contains, remove}
use pyre.Prelude.Int.{ℤ}
use pyre.Proto.{BlockEvent, prompt_start, command_start, output_chunk, block_end}
use pyre.Batcher.Keyed.{keys, without_key}
use pyre.Batcher.Handle.{
  Outside, Block, Call, create_block, finalize_block, add_block, PaneParserState, block_ids,
  open_block, add_output, finish_block, handle, handle_all, finish_all, indexed,
}

-- The end of a block strikes it off where its answer counts.
abbrev struck : Bool → ℕ → List ℕ → List ℕ
struck counted block live = if counted then remove block live else live

-- The blocks that were created and not ended by a call whose answer counts.
unfoldable pub left_open : (Bool → Bool) → List ℕ → List Call → List ℕ
left_open counts live [] = live
left_open counts live (create_block b ∷ rest) = left_open counts (b.id ∷ live) rest
left_open counts live (finalize_block block exit_code len taken ∷ rest) =
    left_open counts (struck (counts taken) block live) rest
left_open counts live (add_block b text ∷ rest) = left_open counts live rest

-- The blocks whose end was never handed to the store, and those whose end the store did not take.
abbrev pub untried : List Call → List ℕ
untried = left_open (λ taken. true) []

abbrev pub unfinished : List Call → List ℕ
unfinished = left_open (λ taken. taken) []

left_open-append :
    (counts : Bool → Bool) (live : List ℕ) (xs ys : List Call)
    → left_open counts live (xs ++ ys) ≡ left_open counts (left_open counts live xs) ys
unfolding left_open
left_open-append counts live [] ys = refl
left_open-append counts live (create_block b ∷ xs) ys = left_open-append counts (b.id ∷ live) xs ys
left_open-append counts live (finalize_block block e n taken ∷ xs) ys =
    left_open-append counts (struck (counts taken) block live) xs ys
left_open-append counts live (add_block b text ∷ xs) ys = left_open-append counts live xs ys

-- A block is left open, and the store's answer to its end counts.
abbrev pub Left {ℓ} : {P : Type ℓ} → (Bool → Bool) → Outside P → List Call → ℕ → Type 0
Left counts o log i =
    (counts (o.finalized i) ≡ true) × (contains (left_open counts [] log) i ≡ true)

-- Such a block is one of the pane's or one of the others.
abbrev pub Covered {ℓ} :
    {P : Type ℓ} → (Bool → Bool) → Outside P → List ℕ → PaneParserState P × List Call → Type 0
Covered counts o others (st, log) =
    (i : ℕ) → Left counts o log i → (contains (block_ids st) i || contains others i) ≡ true

pub contains-remove :
    (a i : ℕ) (xs : List ℕ)
    → contains (remove a xs) i ≡ true
    → ((a == i) ≡ false) × (contains xs i ≡ true)
contains-remove a i [] h = absurd (ground (arith, h))
contains-remove a i (x ∷ xs) h = ground (arith, h, contains-remove a i xs)

contains-remove_ne :
    (a i : ℕ) (xs : List ℕ) → (a == i) ≡ false → contains (remove a xs) i ≡ contains xs i
contains-remove_ne a i [] h = refl
contains-remove_ne a i (x ∷ xs) h = ground (arith, h, contains-remove_ne a i xs h)

keys-without_key {ℓ} :
    {A : Type ℓ} (k : ℕ) (kvs : List (ℕ × A)) → keys (without_key k kvs) ≡ remove k (keys kvs)
keys-without_key k [] = refl
keys-without_key k (kv ∷ kvs) = elim (Bool-cases (kv.0 == k)) [
  | inl e ↦ rw e (keys-without_key k kvs)
  | inr e ↦ rw e (ap (λ ks. kv.0 ∷ ks) (keys-without_key k kvs))
]

left_open-indexed :
    (counts : Bool → Bool) (live : List ℕ) (text : List ℕ) (o : Option Block)
    → left_open counts live (indexed text o) ≡ live
unfolding left_open
left_open-indexed counts live text none = refl
left_open-indexed counts live text (some b) = refl

module _ {ℓ} {P : Type ℓ} where
  left_open-finish_block :
      (counts : Bool → Bool) (o : Outside P) (st : PaneParserState P) (log : List Call) (block : ℕ)
      (e : Option ℤ)
      → left_open counts [] (finish_block o (st, log) block e).1
        ≡ struck (counts (o.finalized block)) block (left_open counts [] log)
  unfolding finish_block left_open
  left_open-finish_block counts o st log block e =
      left_open-append counts [] (log ++ (finalize_block block e _ _ ∷ [])) _
      ∙ left_open-indexed counts _ _ _
      ∙ left_open-append counts [] log _

  -- What the end of a block leaves open was so before, and is not that block.
  finish_block-Left :
      (counts : Bool → Bool) (o : Outside P) (st : PaneParserState P) (log : List Call) (block : ℕ)
      (e : Option ℤ) (i : ℕ)
      → Left counts o (finish_block o (st, log) block e).1 i
      → ((block == i) ≡ false) × Left counts o log i
  finish_block-Left counts o st log block e i (answered, live) =
      go (counts (o.finalized block)) refl
        (subst (λ xs. contains xs i ≡ true) (left_open-finish_block counts o st log block e) live)
    where
      go :
          (c : Bool)
          → counts (o.finalized block) ≡ c
          → contains (struck c block (left_open counts [] log)) i ≡ true
          → ((block == i) ≡ false) × Left counts o log i
      go true same h =
          let (ne, before) = contains-remove block i (left_open counts [] log) h in
          (ne, (answered, before))
      go false same h = elim (Bool-cases (block == i)) [
        | inl y ↦
            let counted : counts (o.finalized block) ≡ true =
              subst (λ k. counts (o.finalized k) ≡ true) (sym ((==_iff block i).0 y)) answered in
            absurd (ground (arith, counted, same))
        | inr y ↦ (y, (answered, h))
      ]

  finish_block-Covered :
      (counts : Bool → Bool) (others : List ℕ) (o : Outside P) (s : PaneParserState P × List Call)
      (block : ℕ) (e : Option ℤ)
      → Covered counts o others s
      → Covered counts o others (finish_block o s block e)
  unfolding finish_block
  finish_block-Covered counts others o (st, log) block e h i live =
      let (ne, before) = finish_block-Left counts o st log block e i live in
      rw (keys-without_key block st.block_meta, contains-remove_ne block i (block_ids st) ne)
        (h i before)

  open_block-Covered :
      (counts : Bool → Bool) (others : List ℕ) (o : Outside P) (st : PaneParserState P)
      (log : List Call) (b : Block)
      → Covered counts o others (st, log)
      → Covered counts o others (open_block o st b, log ++ (create_block b ∷ []))
  unfolding open_block left_open
  open_block-Covered counts others o st log b h i live = elim (Bool-cases (b.id == i)) [
    | inl e ↦ rw e refl
    | inr e ↦
        let after : (b.id == i || contains (left_open counts [] log) i) ≡ true =
          subst (λ xs. contains xs i ≡ true) (left_open-append counts [] log (create_block b ∷ []))
            live.1 in
        let before : contains (left_open counts [] log) i ≡ true = ground (arith, after, e) in
        rw (e, keys-without_key b.id st.block_meta, contains-remove_ne b.id i (block_ids st) e)
          (h i (live.0, before))
  ]

  handle-Covered :
      (counts : Bool → Bool) (others : List ℕ) (o : Outside P) (session pane : ℕ)
      (s : PaneParserState P × List Call) (e : BlockEvent)
      → Covered counts o others s
      → Covered counts o others (handle o session pane s e)
  unfolding handle add_output
  handle-Covered counts others o session pane (st, log) (prompt_start s) h = h
  handle-Covered counts others o session pane (st, log) (command_start s block command cwd) h =
      elim (Bool-cases (o.created block)) [
        | inl e ↦ rw e (open_block-Covered counts others o st log _ h)
        | inr e ↦ rw e h
      ]
  handle-Covered counts others o session pane (st, log) (output_chunk block data_) h = h
  handle-Covered counts others o session pane (st, log) (block_end block exit_code) h =
      finish_block-Covered counts others o (st, log) block exit_code h

  pub handle_all-Covered :
      (counts : Bool → Bool) (others : List ℕ) (o : Outside P) (session pane : ℕ)
      (s : PaneParserState P × List Call) (es : List BlockEvent)
      → Covered counts o others s
      → Covered counts o others (handle_all o session pane s es)
  unfolding handle_all
  handle_all-Covered counts others o session pane s [] h = h
  handle_all-Covered counts others o session pane s (e ∷ es) h =
      handle_all-Covered counts others o session pane (handle o session pane s e) es
        (handle-Covered counts others o session pane s e h)

  -- What is still left open behind the end of some blocks is none of them and was so before.
  pub finish_all_lem :
      (counts : Bool → Bool) (o : Outside P) (s : PaneParserState P × List Call) (ids : List ℕ)
      (i : ℕ)
      → Left counts o (finish_all o s ids).1 i
      → (contains ids i ≡ false) × Left counts o s.1 i
  unfolding finish_all
  finish_all_lem counts o s [] i h = (refl, h)
  finish_all_lem counts o (st, log) (block ∷ ids) i h =
      let (absent, live) = finish_all_lem counts o (finish_block o (st, log) block none) ids i h in
      let (ne, before) = finish_block-Left counts o st log block none i live in
      (rw (ne, absent) refl, before)

  -- The same blocks stay covered.
  finish_all-Covered :
      (counts : Bool → Bool) (others : List ℕ) (o : Outside P) (s : PaneParserState P × List Call)
      (ids : List ℕ)
      → Covered counts o others s
      → Covered counts o others (finish_all o s ids)
  unfolding finish_all
  finish_all-Covered counts others o s [] h = h
  finish_all-Covered counts others o s (block ∷ ids) h =
      finish_all-Covered counts others o (finish_block o s block none) ids
        (finish_block-Covered counts others o s block none h)
