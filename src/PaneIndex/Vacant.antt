-- ===== src/PaneIndex/Vacant.antt =====
-- Lists of slots without a given one.
use pyre.Prelude.{ℕ, ◌≡◌, refl, inl, inr, arith, Bool-cases}
use pyre.Prelude.{List, [], ◌∷◌, ◌++◌, Bool, false, not, ◌&&◌, none}
use pyre.Prelude.{◌==◌, filter, find?, any}
use pyre.PaneIndex.{PaneEntry, SessionSlot, counter}

pub any-filter :
    (p q : PaneEntry → Bool) (es : List PaneEntry) → any p es ≡ false → any p (filter q es) ≡ false
any-filter p q [] h = refl
any-filter p q (e ∷ es) h = elim (Bool-cases (p e)) [
  | inl y ↦ absurd (ground (arith, h, y))
  | inr y ↦
      let tail : any p (filter q es) ≡ false = any-filter p q es (ground (arith, h, y)) in
      elim (Bool-cases (q e)) [ inl z ↦ rw (z, y) tail | inr z ↦ rw z tail ]
]

pub any-append_one :
    (p : PaneEntry → Bool) (es : List PaneEntry) (e : PaneEntry)
    → any p es ≡ false
    → p e ≡ false
    → any p (es ++ (e ∷ [])) ≡ false
any-append_one p [] e h k = rw k refl
any-append_one p (x ∷ es) e h k = ground (arith, any-append_one p es e)

pub any-removed :
    (p : PaneEntry → Bool) (es : List PaneEntry) → any p (filter (λ e. not (p e)) es) ≡ false
any-removed p [] = refl
any-removed p (e ∷ es) = ground (arith, any-removed p es)

pub find_vacant :
    (p : PaneEntry → Bool) (es : List PaneEntry) → any p es ≡ false → find? p es ≡ none
find_vacant p [] h = refl
find_vacant p (e ∷ es) h = ground (arith, find_vacant p es)

pub any-filter_kept :
    (s t i : ℕ) (ds : List SessionSlot)
    → (t == s) ≡ false
    → any (λ d. (d.session_id == s) && (d.slot == i)) (filter (λ d. not (d.session_id == t)) ds)
      ≡ any (λ d. (d.session_id == s) && (d.slot == i)) ds
any-filter_kept s t i [] h = refl
any-filter_kept s t i (d ∷ ds) h = ground (arith, any-filter_kept s t i ds h)

pub any-filter_gone :
    (s i : ℕ) (ds : List SessionSlot)
    → any (λ d. (d.session_id == s) && (d.slot == i)) (filter (λ d. not (d.session_id == s)) ds)
      ≡ false
any-filter_gone s i [] = refl
any-filter_gone s i (d ∷ ds) = ground (arith, any-filter_gone s i ds)

pub counter-filter :
    (s t : ℕ) (cs : List SessionSlot)
    → (t == s) ≡ false
    → counter (filter (λ c. not (c.session_id == t)) cs) s ≡ counter cs s
unfolding counter
counter-filter s t [] h = refl
counter-filter s t (c ∷ cs) h = ground (arith, counter-filter s t cs h)
