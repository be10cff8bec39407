-- ===== src/PaneIndex/Connect.antt =====
-- `connect_worker_ctrl` of crates/pyred/src/supervisor.rs: the supervisor dials a worker's socket, with
-- a pause that grows after each failure. Whether the attempt `n` connects is an argument.
use pyre.Prelude.{
  ℕ, zero, suc, ◌+◌, ◌*◌, ◌≡◌, refl, ap, ◌∙◌, inl, inr, arith, Bool, true, false, Bool-cases,
}
use pyre.Prelude.{List, [], ◌∷◌, Option, none, some, if◌then◌else◌, ltb, find?}

-- How the call ends: connected, with the error of an attempt, or at the `unreachable!` behind the
-- loop; with the milliseconds that it paused.
pub data Dialled : Type 0 where
  connected : (attempt slept : ℕ) → Dialled
  refused : (attempt slept : ℕ) → Dialled
  unreachable : Dialled

-- The loop over the attempts from `attempt`, of which `left` are left.
unfoldable pub dial : (ℕ → Bool) → ℕ → ℕ → ℕ → Dialled
dial connects zero attempt slept = unreachable
dial connects (suc left) attempt slept =
    let rest = dial connects left (attempt + 1) (slept + 100 * (attempt + 1)) in
    if connects attempt
    then connected attempt slept
    else if ltb attempt 9
    then rest
    else refused attempt slept

unfoldable pub connect_worker_ctrl : (ℕ → Bool) → Dialled
connect_worker_ctrl connects = dial connects 10 0 0

-- The numbers from `first` on, and the pauses before the attempt `k`.
abbrev pub attempts : ℕ → ℕ → List ℕ
attempts first zero = []
attempts first (suc left) = first ∷ attempts (first + 1) left

abbrev pub pauses : ℕ → ℕ
pauses zero = 0
pauses (suc k) = pauses k + 100 * (k + 1)

-- The first attempt that connects, or the error of the tenth one.
abbrev first_answer : Option ℕ → Dialled
first_answer none = refused 9 4500
first_answer (some k) = connected k (pauses k)

pauses_step : (k : ℕ) → pauses k + 100 * (k + 1) ≡ pauses (k + 1)
pauses_step k = let next : suc k ≡ k + 1 = omega arith in ap pauses next

dial_lem :
    (connects : ℕ → Bool) (left attempt slept : ℕ)
    → left + attempt ≡ 9
    → slept ≡ pauses attempt
    → dial connects (suc left) attempt slept
      ≡ first_answer (find? connects (attempts attempt (suc left)))
unfolding dial
dial_lem connects zero attempt slept h s = elim (Bool-cases (connects attempt)) [
  | inl e ↦ rw e (ap (connected attempt) s)
  | inr e ↦
      let last : ltb attempt 9 ≡ false = ground (arith, h) in
      let nine : attempt ≡ 9 = omega (arith, h) in
      rw (e, last) (ap (refused attempt) s ∙ ap (λ k. refused k (pauses k)) nine)
]
dial_lem connects (suc left) attempt slept h s = elim (Bool-cases (connects attempt)) [
  | inl e ↦ rw e (ap (connected attempt) s)
  | inr e ↦
      let more : ltb attempt 9 ≡ true = ground (arith, h) in
      let paused : slept + 100 * (attempt + 1) ≡ pauses (attempt + 1) =
        ap (λ n. n + 100 * (attempt + 1)) s ∙ pauses_step attempt in
      rw (e, more)
        (dial_lem connects left (attempt + 1) (slept + 100 * (attempt + 1)) (omega (arith, h))
          paused)
]

-- Dialling ends: with the first of ten attempts that connects, behind the pauses before it, or with
-- the error of the tenth, after 4500 ms of pauses; the `unreachable!` behind the loop is not reached.
pub connect_worker_ctrl-eq :
    (connects : ℕ → Bool)
    → connect_worker_ctrl connects
      ≡ first_answer (find? connects (0 ∷ 1 ∷ 2 ∷ 3 ∷ 4 ∷ 5 ∷ 6 ∷ 7 ∷ 8 ∷ 9 ∷ []))
unfolding connect_worker_ctrl
connect_worker_ctrl-eq connects = dial_lem connects 9 0 0 refl refl
