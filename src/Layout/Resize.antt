-- ===== src/Layout/Resize.antt =====
-- What `set_weight` makes of the weights of a split in two, the only splits that the edits build.
use native.Mathlib.Nat.{mul-div_cancel_left, zero-div}
use pyre.Prelude.{ℕ, suc, ◌+◌, ◌-◌, ◌*◌, ◌≤◌, ◌<◌, ◌≡◌, ap, ap₂, ◌∙◌, arith}
use pyre.Prelude.{true, [], ◌∷◌, inl, inr, max}
use pyre.Prelude.{◌==◌, Bool-cases}
use pyre.Prelude.Int.{ℤ, pos, negsuc, pos_part, neg_part, sub_ℕ, ◌+ℤ◌, ◌-ℤ◌, ◌*ℤ◌, div_trunc, ltb_ℤ}
use pyre.Prelude.Machine.{i32, i32_fits, clamp, clamp_i32}
use pyre.Layout.Tree.{sum_u16}
use pyre.Layout.Weights.{distribute, give_leftover, normalise, spread, rebalance}

pub clamp_bounds : (n : ℕ) → (5 ≤ clamp 5 95 n) × (clamp 5 95 n ≤ 95)
clamp_bounds n = ground arith

mul_pos : (w k : ℕ) → pos w *ℤ pos k ≡ sub_ℕ (w * k) 0
unfolding ◌*ℤ◌
mul_pos w k = ap₂ sub_ℕ (omega arith) (omega arith)

mul_negsuc : (w k : ℕ) → pos w *ℤ negsuc k ≡ sub_ℕ 0 (w * suc k)
unfolding ◌*ℤ◌
mul_negsuc w k = ap₂ sub_ℕ (omega arith) (omega arith)

-- A sibling's part of `-delta` is exact where it is the only sibling.
part_exact : (w : ℕ) (d : ℤ) → 0 < w → div_trunc (pos w *ℤ d) w ≡ d
unfolding div_trunc
part_exact w (pos k) h = rw mul_pos (ground (arith, mul-div_cancel_left k h, zero-div w))
part_exact w (negsuc k) h =
    rw mul_negsuc (ground (arith, mul-div_cancel_left (suc k) h, zero-div w))

product_le : (w k : ℕ) → w ≤ 100 → k ≤ 100 → w * k ≤ 10000
product_le w k h j = grind arith

small_product :
    (w : ℕ) (d : ℤ) → w ≤ 100 → pos_part d ≤ 100 → neg_part d ≤ 100 → i32 (pos w *ℤ d) ≡ pos w *ℤ d
small_product w (pos k) h j l =
    rw mul_pos (i32_fits (sub_ℕ (w * k) 0) (ground (arith, product_le w k h j)) (ground arith))
small_product w (negsuc k) h j l =
    rw mul_negsuc
      (i32_fits (sub_ℕ 0 (w * suc k)) (ground arith) (ground (arith, product_le w (suc k) h l)))

-- The shares of the one sibling, whose weight becomes what the target leaves of 100.
module _ (v w n : ℕ) (whole : v + w ≡ 100) (low : 5 ≤ v) (low' : 5 ≤ w) where
  target : ℕ
  target = clamp 5 95 n

  neg_delta : ℤ
  unfolding target
  neg_delta = pos v -ℤ pos target

  delta_parts : (pos_part neg_delta ≤ 90) × (neg_part neg_delta ≤ 90)
  unfolding neg_delta target ◌-ℤ◌
  delta_parts = ground arith

  part : div_trunc (i32 (pos w *ℤ neg_delta)) w ≡ neg_delta
  part =
      rw
        (small_product w neg_delta (omega arith) (omega (arith, delta_parts))
          (omega (arith, delta_parts)))
        (part_exact w neg_delta (omega arith))

  sum_exact : pos w +ℤ neg_delta ≡ pos (100 - target)
  unfolding neg_delta target ◌+ℤ◌ ◌-ℤ◌
  sum_exact = ground arith

  adjusted : clamp_i32 5 95 (i32 (pos w +ℤ neg_delta)) ≡ 100 - target
  unfolding target
  adjusted =
      rw (sum_exact, i32_fits (pos (100 - target)) (omega arith) (omega arith)) (ground arith)

  leftover : i32 (neg_delta -ℤ (pos (100 - target) -ℤ pos w)) ≡ pos 0
  unfolding neg_delta target ◌-ℤ◌ i32
  leftover = ground arith

  distribute_second :
      distribute 0 0 neg_delta w neg_delta (target ∷ w ∷ []) ≡ (target ∷ (100 - target) ∷ [], pos 0)
  unfolding distribute
  distribute_second = rw (part, adjusted, leftover)

  distribute_first :
      distribute 0 1 neg_delta w neg_delta (w ∷ target ∷ []) ≡ ((100 - target) ∷ target ∷ [], pos 0)
  unfolding distribute
  distribute_first = rw (part, adjusted, leftover)

  settled : clamp_i32 5 95 (i32 (pos (100 - target) +ℤ pos 0)) ≡ 100 - target
  unfolding target ◌+ℤ◌ i32
  settled = ground arith

  sum_of_pair : sum_u16 (target ∷ (100 - target) ∷ []) ≡ 100
  unfolding target
  sum_of_pair = ground arith

  sum_of_pair' : sum_u16 ((100 - target) ∷ target ∷ []) ≡ 100
  unfolding target
  sum_of_pair' = ground arith

  total_exact : i32 (pos (0 + (w + 0))) ≡ pos w
  total_exact = i32_fits (pos (0 + (w + 0))) (omega arith) (omega arith) ∙ ap pos (omega arith)

  total_exact' : i32 (pos (w + (0 + 0))) ≡ pos w
  total_exact' = i32_fits (pos (w + (0 + 0))) (omega arith) (omega arith) ∙ ap pos (omega arith)

  positive : ltb_ℤ (pos 0) (pos w) ≡ true
  positive = ground arith

  at_least_one : max w 1 ≡ w
  at_least_one = omega arith

  spread_second : spread 0 neg_delta (target ∷ w ∷ []) ≡ target ∷ (100 - target) ∷ []
  unfolding spread give_leftover
  spread_second = rw (total_exact, positive) (rw (at_least_one, distribute_second) (rw settled))

  spread_first : spread 1 neg_delta (w ∷ target ∷ []) ≡ (100 - target) ∷ target ∷ []
  unfolding spread give_leftover
  spread_first = rw (total_exact', positive) (rw (at_least_one, distribute_first) (rw settled))

  -- The resized child takes the clamped weight, and its sibling the rest of 100.
  pub rebalance_first_child : rebalance (v ∷ w ∷ []) 0 n ≡ clamp 5 95 n ∷ (100 - clamp 5 95 n) ∷ []
  unfolding rebalance normalise target neg_delta
  rebalance_first_child = elim (Bool-cases (clamp 5 95 n == v)) [
    | inl e ↦ rw e (ap₂ (λ x y. x ∷ y ∷ []) (ground arith) (ground arith))
    | inr e ↦ rw (e, spread_second) (rw sum_of_pair)
  ]

  pub rebalance_second_child : rebalance (w ∷ v ∷ []) 1 n ≡ (100 - clamp 5 95 n) ∷ clamp 5 95 n ∷ []
  unfolding rebalance normalise target neg_delta
  rebalance_second_child = elim (Bool-cases (clamp 5 95 n == v)) [
    | inl e ↦ rw e (ap₂ (λ x y. x ∷ y ∷ []) (ground arith) (ground arith))
    | inr e ↦ rw (e, spread_first) (rw sum_of_pair')
  ]
