-- ===== src/EventBus/Numbered.antt =====
-- The events of a list of emissions, numbered consecutively.
use native.Mathlib.Decide.{dec_lt}
use pyre.Prelude.{ℕ, zero, suc, ◌+◌, ◌-◌, ◌<◌, ◌≡◌, refl, sym, ap, ◌∙◌}
use pyre.Prelude.{List, [], ◌∷◌, ◌++◌, length, drop, filter, drop-nil, arith}
use pyre.Proto.{PaneEvent}
use pyre.EventBus.{Emission, stamp, newer}

abbrev pub numbered : ℕ → List Emission → List PaneEvent
numbered i [] = []
numbered i (e ∷ es) = stamp i e ∷ numbered (i + 1) es

pub length-numbered : (i : ℕ) (es : List Emission) → length (numbered i es) ≡ length es
length-numbered i [] = refl
length-numbered i (e ∷ es) = ap suc (length-numbered (i + 1) es)

pub numbered-append :
    (i : ℕ) (es fs : List Emission)
    → numbered i (es ++ fs) ≡ numbered i es ++ numbered (i + length es) fs
numbered-append i [] fs = ap (λ k. numbered k fs) {x = i} {y = i + 0} (omega arith)
numbered-append i (e ∷ es) fs =
    ap (λ l. stamp i e ∷ l)
      (numbered-append (i + 1) es fs
        ∙ ap (λ k. numbered (i + 1) es ++ numbered k fs) {x = i + 1 + length es}
            {y = i + suc (length es)} (omega arith))

pub drop-numbered :
    (k i : ℕ) (es : List Emission) → drop k (numbered i es) ≡ numbered (i + k) (drop k es)
drop-numbered zero i es = ap (λ k. numbered k es) {x = i} {y = i + 0} (omega arith)
drop-numbered (suc k) i [] = refl
drop-numbered (suc k) i (e ∷ es) =
    drop-numbered k (i + 1) es
    ∙ ap (λ j. numbered j (drop k es)) {x = i + 1 + k} {y = i + suc k} (omega arith)

filter_all :
    (a i : ℕ) (es : List Emission) → a < i → filter (newer a) (numbered i es) ≡ numbered i es
filter_all a i [] h = refl
filter_all a i (e ∷ es) h =
    let rest : filter (newer a) (numbered (i + 1) es) ≡ numbered (i + 1) es =
      filter_all a (i + 1) es (omega arith) in
    ground (arith, rest)

-- The numbers rise, so a filter by number cuts off the front.
pub filter-numbered :
    (a i : ℕ) (es : List Emission)
    → filter (newer a) (numbered i es) ≡ drop (suc a - i) (numbered i es)
filter-numbered a i [] = sym (drop-nil (suc a - i))
filter-numbered a i (e ∷ es) = elim (dec_lt a i) [
  | yes h ↦
      filter_all a i (e ∷ es) h
      ∙ ap (λ k. drop k (numbered i (e ∷ es))) {x = 0} {y = suc a - i} (omega arith)
  | no h ↦
      let later : filter (newer a) (numbered i (e ∷ es)) ≡ filter (newer a) (numbered (i + 1) es) =
        ground arith in
      later
      ∙ filter-numbered a (i + 1) es
      ∙ ap (λ k. drop k (numbered i (e ∷ es))) {x = suc (suc a - (i + 1))} {y = suc a - i}
          (omega arith)
]
