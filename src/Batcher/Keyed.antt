-- ===== src/Batcher/Keyed.antt =====
-- A hash map with numbers for keys, as an association list.
use pyre.Prelude.{ℕ, if◌then◌else◌, ◌==◌}
use pyre.Prelude.{List, [], ◌∷◌, map, Option, none, some, filter, not}

module _ {ℓ} {A : Type ℓ} where
  abbrev pub keys : List (ℕ × A) → List ℕ
  keys kvs = map (λ kv. kv.0) kvs

  abbrev pub without_key : ℕ → List (ℕ × A) → List (ℕ × A)
  without_key k kvs = filter (λ kv. not (kv.0 == k)) kvs

  abbrev pub insert : ℕ → A → List (ℕ × A) → List (ℕ × A)
  insert k a kvs = (k, a) ∷ without_key k kvs

  abbrev pub get : ℕ → List (ℕ × A) → Option A
  get k [] = none
  get k (kv ∷ kvs) = if kv.0 == k then some kv.1 else get k kvs
