-- ===== src/Deck/Bounded.antt =====
-- How many toasts are shown, and which.
use pyre.Prelude.{
  ℕ, suc, ◌+◌, ◌-◌, ◌≤◌, ◌≡◌, refl, sym, ap, subst, ◌∙◌, inl, inr, Bool-cases, arith,
}
use pyre.Prelude.{Bool, true, not, List, [], ◌∷◌, ◌++◌, length, drop, ltb}
use pyre.Prelude.{length-drop, length-append, length-filter-le}
use pyre.Deck.{
  Toast, ToastDeck, ToastKind, DeckOp, show, expire, is_expired, new, trim, push, tick, run,
}

-- The loop keeps the last `n` toasts.
trim-eq-drop : (n : ℕ) (ts : List Toast) → trim n ts ≡ drop (length ts - n) ts
unfolding trim
trim-eq-drop n [] = drop_none n
  where
    drop_none : (n : ℕ) → [] ≡ drop {A = Toast} (0 - n) []
    drop_none n = ap (λ k. drop {A = Toast} k []) {x = 0} {y = 0 - n} (omega arith)
trim-eq-drop n (t ∷ ts) = elim (Bool-cases (ltb n (suc (length ts)))) [
  | inl e ↦ rw e (
      trim-eq-drop n ts
      ∙ ap (λ k. drop k (t ∷ ts)) {x = suc (length ts - n)} {y = suc (length ts) - n}
          (ground (arith, e)))
  | inr e ↦ rw e (ap (λ k. drop k (t ∷ ts)) {x = 0} {y = suc (length ts) - n} (ground (arith, e)))
]

-- A toast that is shown is the newest one of an enabled deck with room, and the oldest ones that no
-- longer fit are dropped.
pub toasts-push :
    (deck : ToastDeck) (now : ℕ) (title body : List ℕ) (kind : ToastKind)
    → deck.enabled ≡ true
    → let toast : Toast = record {
      title = title;
      body = body;
      kind = kind;
      born_at = now;
      ttl = deck.ttl;
    } in
      (push deck now title body kind).toasts
      ≡ drop (length deck.toasts + 1 - deck.max_visible) (deck.toasts ++ (toast ∷ []))
unfolding push
toasts-push deck now title body kind e = rw e (
    trim-eq-drop deck.max_visible (deck.toasts ++ (toast ∷ []))
    ∙ ap (λ k. drop (k - deck.max_visible) (deck.toasts ++ (toast ∷ [])))
        (length-append deck.toasts (toast ∷ [])))
  where
    toast : Toast
    toast = record { title = title; body = body; kind = kind; born_at = now; ttl = deck.ttl }

push-le :
    (deck : ToastDeck) (now : ℕ) (title body : List ℕ) (kind : ToastKind)
    → length deck.toasts ≤ deck.max_visible
    → (length (push deck now title body kind).toasts ≤ deck.max_visible)
      × ((push deck now title body kind).max_visible ≡ deck.max_visible)
unfolding push
push-le deck now title body kind h = elim (Bool-cases deck.enabled) [
  | inr e ↦ rw e (h, refl)
  | inl e ↦ rw e (
    rw (trim-eq-drop deck.max_visible (deck.toasts ++ (toast ∷ []))) (
        omega (
          arith,
          length-drop (length (deck.toasts ++ (toast ∷ [])) - deck.max_visible)
              (deck.toasts ++ (toast ∷ [])),
        )),
    refl,
  )
]
  where
    toast : Toast
    toast = record { title = title; body = body; kind = kind; born_at = now; ttl = deck.ttl }

run-le :
    (deck : ToastDeck) (ops : List DeckOp)
    → length deck.toasts ≤ deck.max_visible
    → length (run deck ops).toasts ≤ deck.max_visible
unfolding run tick
run-le deck [] h = h
run-le deck (show now title body kind ∷ ops) h =
    let (fits, same) = push-le deck now title body kind h in
    subst (λ k. length (run (push deck now title body kind) ops).toasts ≤ k) same
      (run-le (push deck now title body kind) ops
        (subst (λ k. length (push deck now title body kind).toasts ≤ k) (sym same) fits))
run-le deck (expire now ∷ ops) h =
    run-le (tick deck now) ops
      (omega (arith, h, length-filter-le (λ t. not (is_expired t now)) deck.toasts))

-- Through any pushes and ticks a deck never shows more than `max_visible` toasts.
pub run-bounded :
    (enabled : Bool) (ttl max_visible : ℕ) (ops : List DeckOp)
    → length (run (new enabled ttl max_visible) ops).toasts ≤ max_visible
unfolding new
run-bounded enabled ttl max_visible ops = run-le (new enabled ttl max_visible) ops (omega arith)
