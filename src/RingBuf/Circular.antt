-- ===== src/RingBuf/Circular.antt =====
-- Lists given by their entries, and reads of an array in circular order.
use native.Mathlib.Nat.{mod-eq_of_lt, mod-eq-sub-mod, zero-add, suc-add}
use native.Mathlib.Decide.{dec_lt}
use pyre.Prelude.{ℕ, zero, suc, ◌+◌, ◌-◌, ◌%◌, ◌≤◌, ◌<◌, ◌≡◌, refl, ◌≢◌, ap, ap₂, ◌∙◌, arith}
use pyre.Prelude.{List, [], ◌∷◌, ◌++◌, length, get_or, take, drop}

-- The first `n` values of `f`.
abbrev pub tabulate : ℕ → (ℕ → ℕ) → List ℕ
tabulate zero f = []
tabulate (suc n) f = f 0 ∷ tabulate n (λ i. f (suc i))

pub length-tabulate : (n : ℕ) (f : ℕ → ℕ) → length (tabulate n f) ≡ n
length-tabulate zero f = refl
length-tabulate (suc n) f = ap suc (length-tabulate n (λ i. f (suc i)))

pub tabulate_ext :
    (n : ℕ) (f g : ℕ → ℕ) → ((i : ℕ) → i < n → f i ≡ g i) → tabulate n f ≡ tabulate n g
tabulate_ext zero f g h = refl
tabulate_ext (suc n) f g h =
    ap₂ ◌∷◌ (h 0 (omega arith))
      (tabulate_ext n (λ i. f (suc i)) (λ i. g (suc i)) (λ i p. h (suc i) (omega arith)))

-- The last value stands at the end.
pub tabulate-suc : (n : ℕ) (f : ℕ → ℕ) → tabulate (suc n) f ≡ tabulate n f ++ (f n ∷ [])
tabulate-suc zero f = refl
tabulate-suc (suc n) f = ap (λ l. f 0 ∷ l) (tabulate-suc n (λ i. f (suc i)))

pub tabulate-add :
    (m n : ℕ) (f : ℕ → ℕ) → tabulate (m + n) f ≡ tabulate m f ++ tabulate n (λ i. f (m + i))
tabulate-add zero n f =
    ap (λ k. tabulate k f) (omega arith)
    ∙ tabulate_ext n f (λ i. f (zero + i)) (λ i p. ap f (omega arith))
tabulate-add (suc m) n f =
    ap (λ k. tabulate k f) shift
    ∙ ap (λ l. f 0 ∷ l)
        (tabulate-add m n (λ i. f (suc i))
          ∙ ap (λ l. tabulate m (λ i. f (suc i)) ++ l)
              (tabulate_ext n (λ i. f (suc (m + i))) (λ i. f (suc m + i))
                (λ i p. ap f (omega arith))))
  where
    shift : suc m + n ≡ suc (m + n)
    shift = omega arith

-- A slice read entry by entry.
pub take-drop-tabulate :
    (buf : List ℕ) (h n : ℕ)
    → h + n ≤ length buf
    → take n (drop h buf) ≡ tabulate n (λ i. get_or buf (h + i) 0)
take-drop-tabulate buf h zero p = refl
take-drop-tabulate [] h (suc n) p = absurd (omega arith)
take-drop-tabulate (b ∷ buf) zero (suc n) p =
    ap (λ t. b ∷ t)
      (take-drop-tabulate buf zero n (omega arith)
        ∙ tabulate_ext n (λ i. get_or buf (0 + i) 0) (λ i. get_or (b ∷ buf) (0 + suc i) 0)
            (λ i q. shift i))
  where
    shift : (i : ℕ) → get_or buf (0 + i) 0 ≡ get_or (b ∷ buf) (0 + suc i) 0
    shift i = simp zero-add
take-drop-tabulate (b ∷ buf) (suc h) (suc n) p =
    take-drop-tabulate buf h (suc n) (omega arith)
    ∙ tabulate_ext (suc n) (λ i. get_or buf (h + i) 0) (λ i. get_or (b ∷ buf) (suc h + i) 0)
        (λ i q. rw suc-add)

pub take_all : (n : ℕ) (l : List ℕ) → length l ≤ n → take n l ≡ l
take_all zero [] h = refl
take_all zero (x ∷ l) h = absurd (omega arith)
take_all (suc n) [] h = refl
take_all (suc n) (x ∷ l) h = ap (λ t. x ∷ t) (take_all n l (omega arith))

-- A position that is less than twice the capacity comes round at most once.
pub mod_below : (a c : ℕ) → a < c → a % c ≡ a
mod_below a c h = mod-eq_of_lt h

pub mod_round : (a c : ℕ) → c ≤ a → a < c + c → a % c ≡ a - c
mod_round a c h k =
    mod-eq-sub-mod {n = a} {m = c} h ∙ mod-eq_of_lt {n = a - c} {m = c} (omega arith)

-- Two positions less than a round apart are different.
pub mod-ne : (h i j c : ℕ) → h < c → i < j → j < c → (h + j) % c ≢ (h + i) % c
mod-ne h i j c hc ij jc = elim (dec_lt (h + j) c) [
  | yes p ↦ omega (arith, mod_below (h + j) c p, mod_below (h + i) c (omega arith))
  | no p ↦ elim (dec_lt (h + i) c) [
    | yes q ↦ omega (arith, mod_round (h + j) c (omega arith) (omega arith), mod_below (h + i) c q)
    | no q ↦ omega (
      arith,
      mod_round (h + j) c (omega arith) (omega arith),
      mod_round (h + i) c (omega arith) (omega arith),
    )
  ]
]
