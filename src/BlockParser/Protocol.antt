-- ===== src/BlockParser/Protocol.antt =====
-- The events of a whole run of the parser follow the protocol.
use pyre.Prelude.{
  ℕ, ◌<◌, ◌≡◌, refl, sym, subst, arith, List, [], ◌∷◌, ◌++◌, append-nil, append_assoc,
}
use pyre.Prelude.{Option, none, some, length}
use pyre.Proto.{BlockEvent}
use pyre.BlockParser.{
  Decoding, BlockParser, Action, output_flush_bytes, flush_output, perform_all, feed, feed_all, new,
}
use pyre.BlockParser.Nesting.{
  Nested, begin, prompt, command, chunk, finish, Sound, flush_output-Sound, perform_all-Sound,
}

Nested-append :
    (o p q : Option ℕ) (es fs : List BlockEvent)
    → Nested o es p
    → Nested p fs q
    → Nested o (es ++ fs) q
Nested-append o p q es fs h (begin _) = subst (λ l. Nested o l p) (sym (append-nil es)) h
Nested-append o p q es fs h (prompt {es = gs} n g) =
    subst (λ l. Nested o l none) (append_assoc es gs _) (prompt n (Nested-append o p _ es gs h g))
Nested-append o p q es fs h (command {es = gs} n b text cwd g) =
    subst (λ l. Nested o l (some b)) (append_assoc es gs _)
      (command n b text cwd (Nested-append o p _ es gs h g))
Nested-append o p q es fs h (chunk {es = gs} b bytes g s t) =
    subst (λ l. Nested o l (some b)) (append_assoc es gs _)
      (chunk b bytes (Nested-append o p _ es gs h g) s t)
Nested-append o p q es fs h (finish {es = gs} b code g) =
    subst (λ l. Nested o l none) (append_assoc es gs _)
      (finish b code (Nested-append o p _ es gs h g))

feed_all-Nested_from {ℓ} :
    {P : Type ℓ} (advance : P → List ℕ → P × List Action) (dec : Decoding) (p : BlockParser P)
    (reads : List (List ℕ))
    → p.machine.pending ≡ []
    → length p.machine.out_buf < output_flush_bytes
    → let run = feed_all advance dec p reads in
      Nested p.machine.current_block run.1 run.0.machine.current_block
unfolding feed_all feed
feed_all-Nested_from advance dec p [] e s = begin _
feed_all-Nested_from advance dec p (c ∷ cs) e s =
    Nested-append _ _ _ _ _ fed.nested
      (feed_all-Nested_from advance dec (feed advance dec p c).0 cs refl fed.room)
  where
    fed :
        Sound p.machine.current_block
          (flush_output (perform_all dec p.machine (advance p.parser c).1))
    fed = flush_output-Sound _ _ (
        perform_all-Sound dec _ _ (advance p.parser c).1 (record {
          nested =
              subst (λ l. Nested p.machine.current_block l p.machine.current_block) (sym e)
                (begin _);
          room = s;
        }))

-- Whatever calls the terminal parser makes for the reads, in the events of a new parser each
-- output chunk and each end of a block belongs to the block that was started last and has not
-- ended, each chunk has between 1 and 4096 bytes, and the block that is open at the end is the
-- machine's.
pub feed_all-Nested {ℓ} :
    {P : Type ℓ} (advance : P → List ℕ → P × List Action) (dec : Decoding) (parser : P)
    (session : ℕ) (reads : List (List ℕ))
    → let run = feed_all advance dec (record { parser = parser; machine = new session }) reads in
      Nested none run.1 run.0.machine.current_block
unfolding new
feed_all-Nested advance dec parser session reads =
    feed_all-Nested_from advance dec _ reads refl (omega arith)
