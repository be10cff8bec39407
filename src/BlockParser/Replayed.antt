-- ===== src/BlockParser/Replayed.antt =====
-- Every byte printed while a block is open comes out in exactly one chunk, in order, however the
-- output is cut into reads.
use pyre.Prelude.{ℕ, ◌≡◌, refl, sym, ap, ap₂, subst, ◌∙◌, inl, inr, Bool-cases, arith}
use pyre.Prelude.{List, [], ◌∷◌, ◌++◌, append-nil, append_assoc}
use pyre.Prelude.{Option, none, if◌then◌else◌, get_or, get_elem?}
use pyre.Prelude.Text.{same_bytes}
use pyre.BlockParser.{
  Decoding, BlockMachine, BlockParser, Action, print, execute, osc, flush_block, flush_output,
  osc_dispatch, perform, perform_all, feed, feed_all, new,
}
use pyre.BlockParser.Chunks.{
  chunk_data, chunk_data-append, captured, is_open, Holding, captured-flush_block,
  flush_block-Holding, flush_output-eq,
}
use pyre.BlockParser.Steps.{
  Captures, follow, push_byte-Captures, push_bytes-Captures, empty_when_shut, marker-Captures,
  after_osc,
}

-- The block that is open after the calls, and the bytes printed while one is open.
unfoldable pub last_block : Option ℕ → List Action → Option ℕ
last_block o [] = o
last_block o (print _ ∷ rest) = last_block o rest
last_block o (execute _ ∷ rest) = last_block o rest
last_block o (osc uuid params ∷ rest) = last_block (after_osc uuid params o) rest

unfoldable pub written : Option ℕ → List Action → List ℕ
written o [] = []
written o (print utf8 ∷ rest) = (if is_open o then utf8 else []) ++ written o rest
written o (execute byte ∷ rest) = (if is_open o then byte ∷ [] else []) ++ written o rest
written o (osc uuid params ∷ rest) = written (after_osc uuid params o) rest

-- What the terminal parser calls for a sequence of reads.
unfoldable pub calls {ℓ} :
    {P : Type ℓ} → (P → List ℕ → P × List Action) → P → List (List ℕ) → List Action
calls advance p [] = []
calls advance p (c ∷ cs) = (advance p c).1 ++ calls advance (advance p c).0 cs

osc_dispatch-Captures :
    (dec : Decoding) (m : BlockMachine) (uuid : ℕ) (params : List (List ℕ)) (o : Option ℕ)
    → Holding o m
    → Captures m (osc_dispatch dec m uuid params) (after_osc uuid params o) []
unfolding osc_dispatch
osc_dispatch-Captures dec m uuid [] o h = record { more = sym (append-nil (captured m)); now = h }
osc_dispatch-Captures dec m uuid (p ∷ ps) o h =
    elim (Bool-cases (same_bytes p (49 ∷ 51 ∷ 51 ∷ []))) [
      | inl e ↦ rw e (marker-Captures dec m uuid (get_or ps 0 []) (get_elem? ps 1) o h)
      | inr e ↦ rw e (record { more = sym (append-nil (captured m)); now = h })
    ]

perform_all-Captures :
    (dec : Decoding) (m : BlockMachine) (calls : List Action) (o : Option ℕ)
    → Holding o m
    → Captures m (perform_all dec m calls) (last_block o calls) (written o calls)
unfolding perform_all perform last_block written
perform_all-Captures dec m [] o h = record { more = sym (append-nil (captured m)); now = h }
perform_all-Captures dec m (print utf8 ∷ rest) o h =
    let one = push_bytes-Captures m utf8 o h in
    follow one (perform_all-Captures dec (perform dec m (print utf8)) rest o one.now)
perform_all-Captures dec m (execute byte ∷ rest) o h =
    let one = push_byte-Captures m byte o h in
    follow one (perform_all-Captures dec (perform dec m (execute byte)) rest o one.now)
perform_all-Captures dec m (osc uuid params ∷ rest) o h =
    let one = osc_dispatch-Captures dec m uuid params o h in
    follow one (
      perform_all-Captures dec (perform dec m (osc uuid params)) rest (after_osc uuid params o)
        one.now)

-- A machine between two reads.
pub record Resting (o : Option ℕ) (m : BlockMachine) : Type 0 where
  pub holding : Holding o m
  pub drained : m.out_buf ≡ []
  pub nothing_pending : m.pending ≡ []

pub new-Resting : (session : ℕ) → Resting none (new session)
unfolding new
new-Resting session = record {
  holding = record { block = refl; idle = refl; short = omega arith };
  drained = refl;
  nothing_pending = refl;
}

flushed_all :
    (dec : Decoding) (m : BlockMachine) (calls : List Action) (o : Option ℕ)
    → Resting o m
    → let n = flush_output (perform_all dec m calls) in
      Resting (last_block o calls) (record n { pending = [] })
      × (chunk_data n.pending ≡ written o calls)
flushed_all dec m calls o r =
    subst
      (λ n.
        Resting (last_block o calls) (record n { pending = [] })
        × (chunk_data n.pending ≡ written o calls))
      (sym (flush_output-eq _ _ run.now))
      (
        record {
          holding = record { block = held.block; idle = held.idle; short = held.short };
          drained = drained;
          nothing_pending = refl;
        },
        sym (ap (λ l. chunk_data flushed.pending ++ l) drained ∙ append-nil _)
            ∙ captured-flush_block (perform_all dec m calls) (last_block o calls)
            ∙ run.more
            ∙ ap (λ l. l ++ written o calls)
                (ap₂ (λ es l. chunk_data es ++ l) r.nothing_pending r.drained),
      )
  where
    run : Captures m (perform_all dec m calls) (last_block o calls) (written o calls)
    run = perform_all-Captures dec m calls o r.holding

    flushed : BlockMachine
    flushed = flush_block (perform_all dec m calls) (last_block o calls)

    held : Holding (last_block o calls) flushed
    held = flush_block-Holding (perform_all dec m calls) (last_block o calls) run.now

    drained : flushed.out_buf ≡ []
    drained = empty_when_shut (perform_all dec m calls) (last_block o calls) run.now

written-append :
    (o : Option ℕ) (xs ys : List Action)
    → written o (xs ++ ys) ≡ written o xs ++ written (last_block o xs) ys
unfolding written last_block
written-append o [] ys = refl
written-append o (print utf8 ∷ xs) ys =
    ap (λ l. (if is_open o then utf8 else []) ++ l) (written-append o xs ys)
    ∙ sym (append_assoc (if is_open o then utf8 else []) _ _)
written-append o (execute byte ∷ xs) ys =
    ap (λ l. (if is_open o then byte ∷ [] else []) ++ l) (written-append o xs ys)
    ∙ sym (append_assoc (if is_open o then byte ∷ [] else []) _ _)
written-append o (osc uuid params ∷ xs) ys = written-append (after_osc uuid params o) xs ys

empty_written : (o : Option ℕ) → [] ≡ written o []
unfolding written
empty_written o = refl

feed_all_from {ℓ} :
    {P : Type ℓ} (advance : P → List ℕ → P × List Action) (dec : Decoding) (p : BlockParser P)
    (reads : List (List ℕ)) (o : Option ℕ)
    → Resting o p.machine
    → chunk_data (feed_all advance dec p reads).1 ≡ written o (calls advance p.parser reads)
unfolding feed_all feed calls
feed_all_from advance dec p [] o r = empty_written o
feed_all_from advance dec p (c ∷ cs) o r =
    let (rest, out) = flushed_all dec p.machine (advance p.parser c).1 o r in
    chunk_data-append (feed advance dec p c).1 _
    ∙ ap₂ (λ x y. x ++ y) out (feed_all_from advance dec (feed advance dec p c).0 cs _ rest)
    ∙ sym (written-append o (advance p.parser c).1 _)

-- Whatever calls the terminal parser makes for the reads, the data of the output chunks that a new
-- parser emits is exactly the bytes that were printed between a C marker and the next A or D
-- marker, each once and in order, however the output was cut into reads.
pub chunk_data-feed_all {ℓ} :
    {P : Type ℓ} (advance : P → List ℕ → P × List Action) (dec : Decoding) (parser : P)
    (session : ℕ) (reads : List (List ℕ))
    → chunk_data (feed_all advance dec (record { parser = parser; machine = new session }) reads).1
      ≡ written none (calls advance parser reads)
chunk_data-feed_all advance dec parser session reads =
    feed_all_from advance dec _ reads none (new-Resting session)
