-- ===== src/BlockParser/Steps.antt =====
-- What each call of the terminal parser captures, and the block that is open after it.
use pyre.Prelude.{ℕ, ◌≡◌, refl, sym, ap, subst, ◌∙◌, inl, inr, arith, Bool-cases}
use pyre.Prelude.{List, [], ◌∷◌, ◌++◌, append-nil, append_assoc, true, not, ◌||◌, ◌&&◌}
use pyre.Prelude.{Option, none, some, leb, ◌==◌, if◌then◌else◌, length}
use pyre.Prelude.{get_or}
use pyre.Prelude.Int.{ℤ}
use pyre.Prelude.Text.{same_bytes}
use pyre.Proto.{BlockEvent, prompt_start, block_end}
use pyre.BlockParser.{
  Decoding, BlockMachine, output_flush_bytes, flush_block, flush_output, push_in, push_byte,
  push_bytes, start_prompt, start_command, end_block, finish_command, exit_param, marker,
}
use pyre.BlockParser.Chunks.{
  chunk_data, chunk_data-append, captured, is_open, Holding, flushed-empty, captured-flush_block,
  block-flush_block, flush_block-Holding, flush_output-eq,
}

-- The machine went from `m` to `n`, its block is `o` now, and it captured `bytes` more.
pub record Captures (m n : BlockMachine) (o : Option ℕ) (bytes : List ℕ) : Type 0 where
  pub more : captured n ≡ captured m ++ bytes
  pub now : Holding o n

push_open :
    (m : BlockMachine) (x b : ℕ)
    → Holding (some b) m
    → Captures m (push_in m x (some b)) (some b) (x ∷ [])
unfolding push_in flush_output
push_open m x b h =
    elim (Bool-cases (leb output_flush_bytes (length (m.out_buf ++ (x ∷ []))) || (x == 10))) [
      | inl e ↦ rw e (
          subst (λ n. Captures m n (some b) (x ∷ [])) (sym (ap (flush_block pushed) h.block))
            flushed)
      | inr e ↦ rw e (record {
        more = grown;
        now = record { block = h.block; idle = refl; short = ground (arith, e) };
      })
    ]
  where
    pushed : BlockMachine
    pushed = record m { out_buf = m.out_buf ++ (x ∷ []) }

    grown : captured pushed ≡ captured m ++ (x ∷ [])
    grown = sym (append_assoc (chunk_data m.pending) m.out_buf (x ∷ []))

    flushed : Captures m (flush_block pushed (some b)) (some b) (x ∷ [])
    flushed = record {
      more = captured-flush_block pushed (some b) ∙ grown;
      now = record {
        block = block-flush_block pushed (some b) ∙ h.block;
        idle = refl;
        short = rw (flushed-empty pushed b) (omega arith);
      };
    }

push_shut : (m : BlockMachine) (x : ℕ) → Holding none m → Captures m (push_in m x none) none []
unfolding push_in
push_shut m x h = elim (Bool-cases (m.capturing_cmd && not (x == 0))) [
  | inl e ↦ rw e (record {
    more = sym (append-nil (captured m));
    now = record { block = h.block; idle = h.idle; short = h.short };
  })
  | inr e ↦ rw e (record { more = sym (append-nil (captured m)); now = h })
]

pub push_byte-Captures :
    (m : BlockMachine) (x : ℕ) (o : Option ℕ)
    → Holding o m
    → Captures m (push_byte m x) o (if is_open o then x ∷ [] else [])
unfolding push_byte
push_byte-Captures m x none h =
    subst (λ c. Captures m (push_in m x c) none []) (sym h.block) (push_shut m x h)
push_byte-Captures m x (some b) h =
    subst (λ c. Captures m (push_in m x c) (some b) (x ∷ [])) (sym h.block) (push_open m x b h)

pub follow :
    {m n k : BlockMachine} {o p : Option ℕ} {xs ys : List ℕ}
    → Captures m n o xs
    → Captures n k p ys
    → Captures m k p (xs ++ ys)
follow {m} {n} {k} {o} {p} {xs} {ys} f g = record {
  more = g.more ∙ ap (λ l. l ++ ys) f.more ∙ append_assoc (captured m) xs ys;
  now = g.now;
}

pub push_bytes-Captures :
    (m : BlockMachine) (xs : List ℕ) (o : Option ℕ)
    → Holding o m
    → Captures m (push_bytes m xs) o (if is_open o then xs else [])
unfolding push_bytes
push_bytes-Captures m [] none h = record { more = sym (append-nil (captured m)); now = h }
push_bytes-Captures m [] (some b) h = record { more = sym (append-nil (captured m)); now = h }
push_bytes-Captures m (x ∷ xs) none h =
    let one = push_byte-Captures m x none h in
    follow one (push_bytes-Captures (push_byte m x) xs none one.now)
push_bytes-Captures m (x ∷ xs) (some b) h =
    let one = push_byte-Captures m x (some b) h in
    follow one (push_bytes-Captures (push_byte m x) xs (some b) one.now)

-- The block after a marker, whatever it was before.
abbrev pub after_marker : ℕ → List ℕ → Option ℕ → Option ℕ
after_marker uuid [] o = o
after_marker uuid (k ∷ _) o =
    if k == 65
    then none
    else if k == 66
    then o
    else if k == 67
    then some uuid
    else if k == 68
    then none
    else o

abbrev pub after_osc : ℕ → List (List ℕ) → Option ℕ → Option ℕ
after_osc uuid [] o = o
after_osc uuid (p ∷ ps) o =
    if same_bytes p (49 ∷ 51 ∷ 51 ∷ []) then after_marker uuid (get_or ps 0 []) o else o

silent :
    (es : List BlockEvent) (e : BlockEvent)
    → chunk_data (e ∷ []) ≡ []
    → chunk_data (es ++ (e ∷ [])) ≡ chunk_data es
silent es e h =
    chunk_data-append es (e ∷ []) ∙ ap (λ l. chunk_data es ++ l) h ∙ append-nil (chunk_data es)

pub empty_when_shut :
    (m : BlockMachine) (o : Option ℕ) → Holding o m → (flush_block m o).out_buf ≡ []
unfolding flush_block
empty_when_shut m none h = h.idle
empty_when_shut m (some b) h = flushed-empty m b

start_prompt-Captures :
    (m : BlockMachine) (o : Option ℕ) → Holding o m → Captures m (start_prompt m) none []
unfolding start_prompt flush_output
start_prompt-Captures m o h =
    subst (λ c. Captures m (prompted (flush_block m c)) none []) (sym h.block)
      (record {
        more =
            ap (λ l. l ++ (flush_block m o).out_buf)
              (silent (flush_block m o).pending (prompt_start m.session) refl)
            ∙ captured-flush_block m o
            ∙ sym (append-nil (captured m));
        now = record {
          block = refl;
          idle = empty_when_shut m o h;
          short = rw (empty_when_shut m o h) (omega arith);
        };
      })
  where
    prompted : BlockMachine → BlockMachine
    prompted f = record f {
      cmd_buf = [];
      capturing_cmd = true;
      current_block = none;
      pending = f.pending ++ (prompt_start m.session ∷ []);
    }

start_command-Captures :
    (dec : Decoding) (m : BlockMachine) (uuid : ℕ) (o : Option ℕ)
    → Holding o m
    → Captures m (start_command dec m uuid) (some uuid) []
unfolding start_command
start_command-Captures dec m uuid o h = record {
  more = ap (λ l. l ++ m.out_buf) (silent m.pending _ refl) ∙ sym (append-nil (captured m));
  now = record { block = refl; idle = refl; short = h.short };
}

end_block-Captures :
    (m : BlockMachine) (code : Option ℤ) (o : Option ℕ)
    → Holding o m
    → m.out_buf ≡ []
    → Captures m (end_block m code o) none []
unfolding end_block
end_block-Captures m code none h e = record { more = sym (append-nil (captured m)); now = h }
end_block-Captures m code (some b) h e = record {
  more =
      ap (λ l. l ++ m.out_buf) (silent m.pending (block_end b code) refl)
      ∙ sym (append-nil (captured m));
  now = record { block = refl; idle = e; short = h.short };
}

pub flush_block-Captures :
    (m : BlockMachine) (o : Option ℕ) → Holding o m → Captures m (flush_block m o) o []
flush_block-Captures m o h = record {
  more = captured-flush_block m o ∙ sym (append-nil (captured m));
  now = flush_block-Holding m o h;
}

finish_command-Captures :
    (dec : Decoding) (m : BlockMachine) (param : Option (List ℕ)) (o : Option ℕ)
    → Holding o m
    → Captures m (finish_command dec m param) none []
unfolding finish_command
finish_command-Captures dec m param o h =
    subst (λ f. Captures m (end_block f code f.current_block) none []) (sym (flush_output-eq m o h))
      (subst (λ c. Captures m (end_block (flush_block m o) code c) none [])
        (sym (flush_block-Holding m o h).block)
        (follow (flush_block-Captures m o h) (
          end_block-Captures (flush_block m o) code o (flush_block-Holding m o h)
            (empty_when_shut m o h))))
  where
    code : Option ℤ
    code = exit_param dec param

pub marker-Captures :
    (dec : Decoding) (m : BlockMachine) (uuid : ℕ) (sub : List ℕ) (param : Option (List ℕ))
    (o : Option ℕ)
    → Holding o m
    → Captures m (marker dec m uuid sub param) (after_marker uuid sub o) []
unfolding marker
marker-Captures dec m uuid [] param o h = record { more = sym (append-nil (captured m)); now = h }
marker-Captures dec m uuid (k ∷ _) param o h = elim (Bool-cases (k == 65)) [
  | inl e ↦ rw e (start_prompt-Captures m o h)
  | inr e ↦ rw e (elim (Bool-cases (k == 66)) [
    | inl f ↦ rw f (record { more = sym (append-nil (captured m)); now = h })
    | inr f ↦ rw f (elim (Bool-cases (k == 67)) [
      | inl g ↦ rw g (start_command-Captures dec m uuid o h)
      | inr g ↦ rw g (elim (Bool-cases (k == 68)) [
        | inl d ↦ rw d (finish_command-Captures dec m param o h)
        | inr d ↦ rw d (record { more = sym (append-nil (captured m)); now = h })
      ])
    ])
  ])
]
