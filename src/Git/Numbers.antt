-- ===== src/Git/Numbers.antt =====
-- Decimal numbers, read and printed.
use pyre.Prelude.{ℕ, ◌+◌, ◌*◌, ◌-◌, ◌^◌, ◌<◌, ◌≡◌, refl, ap, arith}
use pyre.Prelude.{Bool, true, false, List, [], ◌∷◌, ◌++◌, contains}
use pyre.Prelude.{
  if◌then◌else◌, leb, ltb, ◌==◌, ◌&&◌, all, &&-true, is_empty, lt→ltb, Option, none, some,
}

abbrev pub is_digit : ℕ → Bool
is_digit c = leb 48 c && leb c 57

abbrev pub leading_digits : List ℕ → List ℕ
leading_digits [] = []
leading_digits (c ∷ cs) = if is_digit c then c ∷ leading_digits cs else []

abbrev pub value : ℕ → List ℕ → ℕ
value n [] = n
value n (c ∷ cs) = value (n * 10 + (c - 48)) cs

-- `parse::<u32>` of digits.
unfoldable pub parse_u32 : List ℕ → Option ℕ
parse_u32 [] = none
parse_u32 (c ∷ cs) = let n = value 0 (c ∷ cs) in if ltb n (2 ^ 32) then some n else none

-- What prints `n` in decimal.
pub record Prints (n : ℕ) (text : List ℕ) : Type 0 where
  pub value_eq : value 0 text ≡ n
  pub digits : all is_digit text ≡ true
  pub ne_nil : is_empty text ≡ false

pub leading_digits-append :
    (text : List ℕ) (c : ℕ) (rest : List ℕ)
    → all is_digit text ≡ true
    → is_digit c ≡ false
    → leading_digits (text ++ (c ∷ rest)) ≡ text
leading_digits-append [] c rest h k = rw k refl
leading_digits-append (d ∷ text) c rest h k =
    let (first, others) = &&-true {a = is_digit d} h in
    rw first (ap (λ ds. d ∷ ds) (leading_digits-append text c rest others k))

pub parse_u32-Prints :
    (n : ℕ) (text : List ℕ) → n < 2 ^ 32 → Prints n text → parse_u32 text ≡ some n
unfolding parse_u32
parse_u32-Prints n [] h p = absurd (ground (arith, p.ne_nil))
parse_u32-Prints n (c ∷ text) h p = rw (p.value_eq, lt→ltb n (2 ^ 32) h) refl

pub digits-absent :
    (k : ℕ) (text : List ℕ)
    → is_digit k ≡ false
    → all is_digit text ≡ true
    → contains text k ≡ false
digits-absent k [] h p = refl
digits-absent k (c ∷ text) h p =
    let (first, others) = &&-true {a = is_digit c} p in
    let other : (c == k) ≡ false = ground (arith, first, h) in
    rw (other, digits-absent k text h others) refl
