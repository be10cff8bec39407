-- ===== src/Git/Text.antt =====
-- The string functions of the standard library that the parser uses, on bytes.
use pyre.Prelude.{
  ℕ, ◌≡◌, refl, sym, ap, ◌∙◌, inl, inr, arith, Bool, true, false, List, [], ◌∷◌, ◌++◌, Option, none,
  some,
}
use pyre.Prelude.{
  if◌then◌else◌, ◌==◌, ==_refl, is_empty, contains, ||-false, ◌&&◌, append-nil, append_assoc,
  Bool-cases,
}
use mathlib.Core.Option

-- A carriage return before the newline belongs to the line's end.
unfoldable pub strip_cr : List ℕ → List ℕ
strip_cr [] = []
strip_cr (c ∷ cs) =
    if (c == 13) then (if is_empty cs then [] else c ∷ strip_cr cs) else c ∷ strip_cr cs

-- `str::lines`; the last line may lack its newline, 10.
unfoldable pub lines_from : List ℕ → List ℕ → List (List ℕ)
lines_from line [] = if is_empty line then [] else line ∷ []
lines_from line (c ∷ cs) =
    let next = lines_from [] cs in
    let longer = lines_from (line ++ (c ∷ [])) cs in
    if c == 10 then strip_cr line ∷ next else longer

abbrev pub lines : List ℕ → List (List ℕ)
lines text = lines_from [] text

abbrev pub strip_prefix : List ℕ → List ℕ → Option (List ℕ)
strip_prefix [] text = some text
strip_prefix (p ∷ ps) [] = none
strip_prefix (p ∷ ps) (c ∷ cs) = if p == c then strip_prefix ps cs else none

abbrev pub starts_with : List ℕ → List ℕ → Bool
starts_with [] text = true
starts_with (p ∷ ps) [] = false
starts_with (p ∷ ps) (c ∷ cs) = if p == c then starts_with ps cs else false

-- The branch on a match at the head; `later` is the first one behind it.
abbrev here_or : ℕ → Option (List ℕ) → Option (List ℕ × List ℕ) → Option (List ℕ × List ℕ)
here_or c (some rest) later = some ([], rest)
here_or c none later = Option.map (λ s. (c ∷ s.0, s.1)) later

-- What is before the first occurrence of the pattern, and what is behind it.
abbrev pub split_first : List ℕ → List ℕ → Option (List ℕ × List ℕ)
split_first pattern_ [] = Option.map (λ rest. ([], rest)) (strip_prefix pattern_ [])
split_first pattern_ (c ∷ cs) = here_or c (strip_prefix pattern_ (c ∷ cs)) (split_first pattern_ cs)

pub strip_prefix-append : (ps r : List ℕ) → strip_prefix ps (ps ++ r) ≡ some r
strip_prefix-append [] r = refl
strip_prefix-append (p ∷ ps) r = rw (==_refl p) (strip_prefix-append ps r)

-- A pattern is found where its first byte is not before it.
pub split_first-append :
    (k : ℕ) (ps before r : List ℕ)
    → contains before k ≡ false
    → split_first (k ∷ ps) (before ++ ((k ∷ ps) ++ r)) ≡ some (before, r)
split_first-append k ps [] r h = rw (==_refl k, strip_prefix-append ps r) refl
split_first-append k ps (c ∷ before) r h =
    let (first, others) = ||-false {a = c == k} h in
    let other : (k == c) ≡ false = ground (arith, first) in
    rw other (ap (Option.map (λ s. (c ∷ s.0, s.1))) (split_first-append k ps before r others))

-- Every dot, 46, is followed by another byte: no `..`, and no dot at the end.
unfoldable pub IsRefName : List ℕ → Type 0
IsRefName [] = Unit
IsRefName (c ∷ []) = (46 == c) ≡ false
IsRefName (c ∷ (d ∷ ds)) = (((46 == c) && (46 == d)) ≡ false) × IsRefName (d ∷ ds)

no_dots :
    (c d : ℕ) (text : List ℕ)
    → ((46 == c) && (46 == d)) ≡ false
    → strip_prefix (46 ∷ 46 ∷ 46 ∷ []) (c ∷ (d ∷ text)) ≡ none
no_dots c d text h = elim (Bool-cases (46 == c)) [
  | inr e ↦ rw e refl
  | inl e ↦ let other : (46 == d) ≡ false = ground (arith, h, e) in rw (e, other) refl
]

pub split_first-dots :
    (name r : List ℕ)
    → IsRefName name
    → split_first (46 ∷ 46 ∷ 46 ∷ []) (name ++ (46 ∷ 46 ∷ 46 ∷ r)) ≡ some (name, r)
unfolding IsRefName
split_first-dots [] r h = refl
split_first-dots (c ∷ []) r h = rw h refl
split_first-dots (c ∷ (d ∷ ds)) r (apart, h) =
    ap (λ o. here_or c o (split_first (46 ∷ 46 ∷ 46 ∷ []) (d ∷ (ds ++ (46 ∷ 46 ∷ 46 ∷ r)))))
      (no_dots c d (ds ++ (46 ∷ 46 ∷ 46 ∷ r)) apart)
    ∙ ap (Option.map (λ s. (c ∷ s.0, s.1))) (split_first-dots (d ∷ ds) r h)

-- A line without a newline, which is not the last.
pub lines_from-append :
    (line text rest : List ℕ)
    → contains text 10 ≡ false
    → lines_from line (text ++ (10 ∷ rest)) ≡ strip_cr (line ++ text) ∷ lines_from [] rest
unfolding lines_from
lines_from-append line [] rest h = ap (λ l. strip_cr l ∷ lines_from [] rest) (sym (append-nil line))
lines_from-append line (c ∷ text) rest h =
    let (first, others) = ||-false {a = c == 10} h in
    rw first (
      lines_from-append (line ++ (c ∷ [])) text rest others
      ∙ ap (λ l. strip_cr l ∷ lines_from [] rest) (append_assoc line (c ∷ []) text))

pub strip_cr-absent : (line : List ℕ) → contains line 13 ≡ false → strip_cr line ≡ line
unfolding strip_cr
strip_cr-absent [] h = refl
strip_cr-absent (c ∷ line) h =
    let (first, others) = ||-false {a = c == 13} h in
    rw first (ap (λ l. c ∷ l) (strip_cr-absent line others))
