-- ===== src/Batcher/Entries.antt =====
-- The open blocks of all panes, when the state of one is read and written back.
use pyre.Prelude.{ℕ, ◌≡◌, refl, sym, ap, subst, ◌∙◌, inl, inr, arith, Bool, true, false, ◌||◌}
use pyre.Prelude.{Bool-cases, ==_refl, List, [], ◌∷◌, ◌++◌, if◌then◌else◌}
use pyre.Prelude.{contains, contains-append}
use pyre.Batcher.{ParserEntry, is_entry, state_of, put_state}
use pyre.Batcher.Handle.{Outside, Call, PaneParserState, block_ids}
use pyre.Batcher.Unfinished.{Left}

pub or-true : {a b : Bool} → (a || b) ≡ true → a ≡ false → b ≡ true
or-true h e = ground (arith, h, e)

or_middle : (a b c : Bool) → b ≡ true → (a || (b || c)) ≡ true
or_middle a b c e = ground (arith, e)

or_skip : (a b c : Bool) → (a || (b || c)) ≡ true → b ≡ false → (a || c) ≡ true
or_skip a b c h e = ground (arith, h, e)

pub none_contained : (xs : List ℕ) → ((i : ℕ) → ¬ (contains xs i ≡ true)) → xs ≡ []
none_contained [] h = refl
none_contained (x ∷ xs) h = absurd (h x (rw (==_refl x) refl))

module _ {ℓ} {P : Type ℓ} where
  -- The open blocks of all panes, and of all but one.
  abbrev pub open_ids : List (ParserEntry P) → List ℕ
  open_ids [] = []
  open_ids (e ∷ es) = block_ids e.state ++ open_ids es

  abbrev pub others : List (ParserEntry P) → ℕ → ℕ → List ℕ
  others [] session slot = []
  others (e ∷ es) session slot =
      if is_entry session slot e then open_ids es else block_ids e.state ++ others es session slot

  abbrev pub Known : (Bool → Bool) → Outside P → List (ParserEntry P) → List Call → Type 0
  Known counts o es log = (i : ℕ) → Left counts o log i → contains (open_ids es) i ≡ true

  pub open_ids_cases :
      (es : List (ParserEntry P)) (session slot : ℕ) (d : PaneParserState P) (i : ℕ)
      → contains (open_ids es) i ≡ true
      → (contains (block_ids (state_of es session slot d)) i || contains (others es session slot) i)
        ≡ true
  open_ids_cases [] session slot d i h = absurd (ground (arith, h))
  open_ids_cases (e ∷ es) session slot d i h =
      let split : (contains (block_ids e.state) i || contains (open_ids es) i) ≡ true =
        sym (contains-append (block_ids e.state) (open_ids es) i) ∙ h in
      elim (Bool-cases (is_entry session slot e)) [
        | inl y ↦ rw y split
        | inr y ↦
            rw (y, contains-append (block_ids e.state) (others es session slot) i)
              (elim (Bool-cases (contains (block_ids e.state) i)) [
                | inl z ↦
                    or_middle (contains (block_ids (state_of es session slot d)) i)
                      (contains (block_ids e.state) i) (contains (others es session slot) i) z
                | inr z ↦ rw z (open_ids_cases es session slot d i (or-true split z))
              ])
      ]

  pub open_ids-put_state :
      (es : List (ParserEntry P)) (session slot : ℕ) (st : PaneParserState P) (i : ℕ)
      → (contains (block_ids st) i || contains (others es session slot) i) ≡ true
      → contains (open_ids (put_state es session slot st)) i ≡ true
  open_ids-put_state [] session slot st i h = contains-append (block_ids st) [] i ∙ h
  open_ids-put_state (e ∷ es) session slot st i h =
      let at : (c : Bool)
          → is_entry session slot e ≡ c
          → (contains (block_ids st) i
              || contains (if c then open_ids es else block_ids e.state ++ others es session slot)
                  i)
            ≡ true =
        λ k y.
          subst
            (λ c.
              (contains (block_ids st) i
                || contains (if c then open_ids es else block_ids e.state ++ others es session slot)
                    i)
              ≡ true)
            y h in
      elim (Bool-cases (is_entry session slot e)) [
        | inl y ↦ rw (y, contains-append (block_ids st) (open_ids es) i) (at true y)
        | inr y ↦
            rw (y, contains-append (block_ids e.state) (open_ids (put_state es session slot st)) i)
              (elim (Bool-cases (contains (block_ids e.state) i)) [
                | inl z ↦ rw z refl
                | inr z ↦ rw z (
                    open_ids-put_state es session slot st i (
                      or_skip (contains (block_ids st) i) (contains (block_ids e.state) i) _
                        (ap (λ b. contains (block_ids st) i || b)
                            (sym (contains-append (block_ids e.state) (others es session slot) i))
                          ∙ at false y)
                        z))
              ])
      ]
