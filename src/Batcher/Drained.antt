-- ===== src/Batcher/Drained.antt =====
-- When the batcher stops, the end of every block that it created was handed to the store.
use pyre.Prelude.{ℕ, ◌≡◌, refl, sym, ◌∙◌, arith, Bool, true, false, ◌||◌}
use pyre.Prelude.{List, [], ◌∷◌, ◌++◌, Option, none, some, if◌then◌else◌}
use pyre.Prelude.{Bool-cases, inl, inr, contains, contains-append}
use pyre.PaneIndex.{WorkerRegistry}
use pyre.Batcher.{
  Batcher, RawEvent, ParserEntry, Input, event, tick, finalize, channel_closed, start, is_entry,
  feed_raw, process_at, process_in, process_raw_event, process_all, flush, finalize_one_pane_state,
  finalize_entries, finalize_entry, finalize_pane, finalize_open_blocks, turn, run,
}
use pyre.Batcher.Handle.{Outside, Call, PaneParserState, block_ids, finish_all}
use pyre.Batcher.Unfinished.{
  left_open, untried, unfinished, Left, Covered, handle_all-Covered, finish_all_lem,
}
use pyre.Batcher.Entries.{
  or-true, none_contained, open_ids, others, Known, open_ids_cases, open_ids-put_state,
}

or_second : (a : Bool) {b : Bool} → b ≡ true → (a || b) ≡ true
or_second a e = ground (arith, e)

or_mono : (a : Bool) {b c : Bool} → (a || b) ≡ true → (b ≡ true → c ≡ true) → (a || c) ≡ true
or_mono true h k = refl
or_mono false h k = k h

module _ {ℓ} {P : Type ℓ} where
  feed_raw-Covered :
      (counts : Bool → Bool) (rest : List ℕ) (o : Outside P) (log : List Call)
      (st : PaneParserState P) (session pane : ℕ) (bytes : List ℕ)
      → Covered counts o rest (st, log)
      → Covered counts o rest (feed_raw o log st session pane bytes)
  unfolding feed_raw
  feed_raw-Covered counts rest o log st session pane bytes h =
      handle_all-Covered counts rest o session pane
        (record st { parser = _; pane_id = some pane }, log) _ h

  process_raw_event-Known :
      (counts : Bool → Bool) (o : Outside P) (b : Batcher P) (raw : RawEvent)
      → Known counts o b.pane_parsers b.log
      → Known counts o (process_raw_event o b raw).pane_parsers (process_raw_event o b raw).log
  unfolding process_raw_event process_in process_at
  process_raw_event-Known counts o b raw h = go (o.session_uuid raw.session_id)
    where
      at :
          (session : ℕ) (st : PaneParserState P) (r : WorkerRegistry × Option ℕ)
          → Covered counts o (others b.pane_parsers raw.session_id raw.slot_idx) (st, b.log)
          → Known counts o
              (process_at o b raw session st r).pane_parsers
              (process_at o b raw session st r).log
      at session st (registry, none) covered = λ i live.
          open_ids-put_state b.pane_parsers raw.session_id raw.slot_idx st i (covered i live)
      at session st (registry, some pane) covered = λ i live.
          open_ids-put_state b.pane_parsers raw.session_id raw.slot_idx _ i (
            feed_raw-Covered counts (others b.pane_parsers raw.session_id raw.slot_idx) o b.log st
              session pane raw.bytes covered i live)

      go :
          (u : Option ℕ)
          → Known counts o (process_in o b raw u).pane_parsers (process_in o b raw u).log
      go none = h
      go (some session) =
          at session _ _
            (λ i live. open_ids_cases b.pane_parsers raw.session_id raw.slot_idx _ i (h i live))

  process_all-Known :
      (counts : Bool → Bool) (o : Outside P) (b : Batcher P) (raws : List RawEvent)
      → Known counts o b.pane_parsers b.log
      → Known counts o (process_all o b raws).pane_parsers (process_all o b raws).log
  unfolding process_all
  process_all-Known counts o b [] h = h
  process_all-Known counts o b (raw ∷ raws) h =
      process_all-Known counts o (process_raw_event o b raw) raws
        (process_raw_event-Known counts o b raw h)

  flush-Known :
      (counts : Bool → Bool) (o : Outside P) (b : Batcher P)
      → Known counts o b.pane_parsers b.log
      → Known counts o (flush o b).pane_parsers (flush o b).log
  unfolding flush
  flush-Known counts o b h = process_all-Known counts o (record b { pending = [] }) b.pending h

  -- What a finalized pane leaves unfinished was so before, and is a block of another pane.
  finalize_entry_lem :
      (counts : Bool → Bool) (o : Outside P) (es : List (ParserEntry P)) (session slot : ℕ)
      (log : List Call) (i : ℕ)
      → Left counts o (finalize_entry o es session slot log).1 i
      → (Left counts o log i)
        × (contains (open_ids es) i ≡ true
            → contains (open_ids (finalize_entry o es session slot log).0) i ≡ true)
  unfolding finalize_entry finalize_one_pane_state
  finalize_entry_lem counts o [] session slot log i h = (h, λ k. k)
  finalize_entry_lem counts o (e ∷ es) session slot log i h =
      go (is_entry session slot e) (finalize_entry_lem counts o es session slot log i) h
    where
      done : PaneParserState P × List Call
      done = finish_all o (e.state, log) (block_ids e.state)

      rest : List (ParserEntry P) × List Call
      rest = finalize_entry o es session slot log

      outcome : Bool → List (ParserEntry P) × List Call
      outcome c = if c then (record e { state = done.0 } ∷ es, done.1) else (e ∷ rest.0, rest.1)

      parts :
          contains (open_ids (e ∷ es)) i ≡ true
          → (contains (block_ids e.state) i || contains (open_ids es) i) ≡ true
      parts k = sym (contains-append (block_ids e.state) (open_ids es) i) ∙ k

      go :
          (c : Bool)
          → (Left counts o rest.1 i
              → (Left counts o log i)
                × (contains (open_ids es) i ≡ true → contains (open_ids rest.0) i ≡ true))
          → Left counts o (outcome c).1 i
          → (Left counts o log i)
            × (contains (open_ids (e ∷ es)) i ≡ true → contains (open_ids (outcome c).0) i ≡ true)
      go true later k =
          let (none_here, before) =
            finish_all_lem counts o (e.state, log) (block_ids e.state) i k in
          (
            before,
            λ known.
                contains-append (block_ids done.0) (open_ids es) i
                ∙ or_second (contains (block_ids done.0) i) (or-true (parts known) none_here),
          )
      go false later k =
          let (before, kept) = later k in
          (
            before,
            λ known.
                contains-append (block_ids e.state) (open_ids rest.0) i
                ∙ or_mono (contains (block_ids e.state) i) (parts known) kept,
          )

  finalize_entries_lem :
      (counts : Bool → Bool) (o : Outside P) (es : List (ParserEntry P)) (log : List Call) (i : ℕ)
      → Left counts o (finalize_entries o es log).1 i
      → (contains (open_ids es) i ≡ false) × (Left counts o log i)
  unfolding finalize_entries finalize_one_pane_state
  finalize_entries_lem counts o [] log i h = (refl, h)
  finalize_entries_lem counts o (e ∷ es) log i h =
      let (none_behind, live) =
        finalize_entries_lem counts o es (finish_all o (e.state, log) (block_ids e.state)).1 i h in
      let (none_here, before) = finish_all_lem counts o (e.state, log) (block_ids e.state) i live in
      (
        contains-append (block_ids e.state) (open_ids es) i ∙ rw (none_here, none_behind) refl,
        before,
      )

  finalize_pane-Known :
      (counts : Bool → Bool) (o : Outside P) (b : Batcher P) (session slot : ℕ)
      → Known counts o b.pane_parsers b.log
      → Known counts o
          (finalize_pane o b session slot).pane_parsers
          (finalize_pane o b session slot).log
  unfolding finalize_pane
  finalize_pane-Known counts o b session slot h i live =
      let (before, kept) = finalize_entry_lem counts o b.pane_parsers session slot b.log i live in
      kept (h i before)

  finalize_open_blocks-Left :
      (counts : Bool → Bool) (o : Outside P) (b : Batcher P) (i : ℕ)
      → Known counts o b.pane_parsers b.log
      → ¬ Left counts o (finalize_open_blocks o b).log i
  unfolding finalize_open_blocks
  finalize_open_blocks-Left counts o b i h live =
      let (gone, before) = finalize_entries_lem counts o b.pane_parsers b.log i live in
      ground (arith, gone, h i before)

  run-Left :
      (counts : Bool → Bool) (o : Outside P) (b : Batcher P) (inputs : List Input) (i : ℕ)
      → Known counts o b.pane_parsers b.log
      → ¬ Left counts o (run o b (inputs ++ (channel_closed ∷ []))).log i
  unfolding run turn
  run-Left counts o b [] i h =
      finalize_open_blocks-Left counts o (flush o b) i (flush-Known counts o b h)
  run-Left counts o b (event raw ∷ rest) i h =
      run-Left counts o (record b { pending = b.pending ++ (raw ∷ []) }) rest i h
  run-Left counts o b (tick ∷ rest) i h =
      run-Left counts o (flush o b) rest i (flush-Known counts o b h)
  run-Left counts o b (finalize session slot ∷ rest) i h =
      run-Left counts o (finalize_pane o (flush o b) session slot) rest i
        (finalize_pane-Known counts o (flush o b) session slot (flush-Known counts o b h))
  run-Left counts o b (channel_closed ∷ rest) i h =
      finalize_open_blocks-Left counts o (flush o b) i (flush-Known counts o b h)

-- Whatever the workers send, whichever panes are finalized, and whatever the store and the blob files
-- answer: when the channel is closed, the end of every block that the batcher has created in the
-- store has been handed to the store after it, and a block is left unfinished there only if the store
-- does not take its end.
pub run_finishes_blocks {ℓ} :
    {P : Type ℓ} (o : Outside P) (registry : WorkerRegistry) (inputs : List Input)
    → let log = (run o (start registry) (inputs ++ (channel_closed ∷ []))).log in
      (untried log ≡ [])
      × ((block : ℕ) → contains (unfinished log) block ≡ true → o.finalized block ≡ false)
unfolding start left_open
run_finishes_blocks o registry inputs = (
  none_contained _ (λ i live. ends (λ taken. true) i (refl, live)),
  λ block live. elim (Bool-cases (o.finalized block)) [
    | inl e ↦ absurd (ends (λ taken. taken) block (e, live))
    | inr e ↦ e
  ],
)
  where
    ends :
        (counts : Bool → Bool) (i : ℕ)
        → ¬ Left counts o (run o (start registry) (inputs ++ (channel_closed ∷ []))).log i
    ends counts i =
        run-Left counts o (start registry) inputs i (λ k live. absurd (ground (arith, live.1)))
