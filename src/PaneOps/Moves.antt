-- ===== src/PaneOps/Moves.antt =====
-- Where a tab and the active session are after a list was changed.
use pyre.Prelude.{ℕ, zero, suc, ◌-◌, ◌+◌, ◌<◌, ◌≤◌, ◌≡◌, refl, sym, ap, ◌∙◌, inl, inr, Bool-cases}
use pyre.Prelude.{false, leb, ◌==◌, if◌then◌else◌, List, [], ◌∷◌}
use pyre.Prelude.{some, length, get_elem?, is_empty, min, arith}
use pyre.PaneOps.{SessionView, AppState, remove_at, insert_at, moved, tab_reorder, drop_tab}

module _ {ℓ} {A : Type ℓ} where
  get_elem?-insert_at :
      (xs : List A) (i : ℕ) (x : A) → i ≤ length xs → get_elem? (insert_at xs i x) i ≡ some x
  unfolding insert_at
  get_elem?-insert_at [] zero x h = refl
  get_elem?-insert_at (y ∷ xs) zero x h = refl
  get_elem?-insert_at [] (suc i) x h = absurd (omega (arith, h))
  get_elem?-insert_at (y ∷ xs) (suc i) x h = get_elem?-insert_at xs i x (omega (arith, h))

  remove_at-insert_at :
      (xs : List A) (i : ℕ) (x : A) → i ≤ length xs → remove_at (insert_at xs i x) i ≡ xs
  unfolding insert_at remove_at
  remove_at-insert_at [] zero x h = refl
  remove_at-insert_at (y ∷ xs) zero x h = refl
  remove_at-insert_at [] (suc i) x h = absurd (omega (arith, h))
  remove_at-insert_at (y ∷ xs) (suc i) x h =
      ap (λ l. y ∷ l) (remove_at-insert_at xs i x (omega (arith, h)))

  length-remove_at : (xs : List A) (i : ℕ) → i < length xs → length (remove_at xs i) + 1 ≡ length xs
  unfolding remove_at
  length-remove_at [] i h = absurd (omega (arith, h))
  length-remove_at (x ∷ xs) zero h = omega arith
  length-remove_at (x ∷ xs) (suc i) h = omega (arith, length-remove_at xs i (omega (arith, h)))

  get_elem?-remove_at :
      (xs : List A) (i k : ℕ) → i ≤ k → get_elem? (remove_at xs i) k ≡ get_elem? xs (suc k)
  unfolding remove_at
  get_elem?-remove_at [] i k h = refl
  get_elem?-remove_at (x ∷ xs) zero k h = refl
  get_elem?-remove_at (x ∷ xs) (suc i) zero h = absurd (omega (arith, h))
  get_elem?-remove_at (x ∷ xs) (suc i) (suc k) h = get_elem?-remove_at xs i k (omega (arith, h))

  get_elem?-in : (xs : List A) (i : ℕ) → i < length xs → (x : A) × (get_elem? xs i ≡ some x)
  get_elem?-in [] i h = absurd (omega (arith, h))
  get_elem?-in (x ∷ xs) zero h = (x, refl)
  get_elem?-in (x ∷ xs) (suc i) h = get_elem?-in xs i (omega (arith, h))

  -- Moving a tab between two places of the list puts it at the new place and keeps the others in
  -- their order.
  pub tab_reorder_lem :
      (tabs : List A) (from to : ℕ)
      → from < length tabs
      → to < length tabs
      → (get_elem? (tab_reorder tabs from to) to ≡ get_elem? tabs from)
        × (remove_at (tab_reorder tabs from to) to ≡ remove_at tabs from)
  unfolding tab_reorder moved
  tab_reorder_lem tabs from to h k = elim (Bool-cases (from == to)) [
    | inl e ↦
        let same : from ≡ to = ground (arith, e) in
        rw e (ap (get_elem? tabs) (sym same), ap (remove_at tabs) (sym same))
    | inr e ↦
        let (tab, found) = get_elem?-in tabs from h in
        let first : leb (length tabs) from ≡ false = ground (arith, h) in
        let second : leb (length tabs) to ≡ false = ground (arith, k) in
        let room : to ≤ length (remove_at tabs from) =
          omega (arith, k, length-remove_at tabs from h) in
        rw (e, first, second, found)
          (
            get_elem?-insert_at (remove_at tabs from) to tab room,
            remove_at-insert_at (remove_at tabs from) to tab room,
          )
  ]

-- When a session before the active one, or the active one itself, loses its last tab while a session
-- follows the active one, the client shows the session that followed.
pub active_session_shifts :
    (state : AppState) (si ti : ℕ)
    → si ≤ state.active_session
    → state.active_session + 1 < length state.sessions
    → let after = drop_tab state si ti [] in
      get_elem? after.sessions after.active_session
      ≡ get_elem? state.sessions (state.active_session + 1)
unfolding drop_tab
active_session_shifts state si ti h k =
    ap (get_elem? left) stays
    ∙ get_elem?-remove_at state.sessions si state.active_session h
    ∙ ap (get_elem? state.sessions) {x = suc state.active_session} (omega arith)
  where
    left : List SessionView
    left = remove_at state.sessions si

    size : length left + 1 ≡ length state.sessions
    size = length-remove_at state.sessions si (omega (arith, h, k))

    stays :
        (if is_empty left then state.active_session else min state.active_session (length left - 1))
        ≡ state.active_session
    stays = elim (Bool-cases (is_empty left)) [
      | inl e ↦ rw e refl
      | inr e ↦ rw e (omega (arith, size, k))
    ]
