-- ===== src/Prelude/Text.antt =====
-- Text as the numbers of its characters, which are its bytes where it is ASCII.
use Prim.Native.Nat.{ℕ}
use Prim.Native.Char.{code}
use Prim.Native.String.{String}
use mathlib.Core.Bool.{Bool, true, false, ◌&&◌}
use mathlib.Core.List.{List, [], ◌∷◌}
use pyre.Prelude.Tests.{◌==◌, if◌then◌else◌}
use pyre.Prelude.Lists.{any}

abbrev pub codes : String → List ℕ
codes String.[] = []
codes (String.◌∷◌ c s) = code c ∷ codes s

abbrev pub same_bytes : List ℕ → List ℕ → Bool
same_bytes [] [] = true
same_bytes (x ∷ xs) (y ∷ ys) = (x == y) && same_bytes xs ys
same_bytes _ _ = false

abbrev pub one_of : List String → List ℕ → Bool
one_of names text = any (λ n. n) (tests names)
  where
    tests : List String → List Bool
    tests [] = []
    tests (n ∷ ns) = same_bytes (codes n) text ∷ tests ns

-- The part behind the last separator: the first piece of `rsplit`.
abbrev pub last_piece : ℕ → List ℕ → List ℕ → List ℕ
last_piece sep piece [] = piece
last_piece sep piece (c ∷ cs) = if c == sep then last_piece sep cs cs else last_piece sep piece cs

abbrev pub rsplit_next : ℕ → List ℕ → List ℕ
rsplit_next sep text = last_piece sep text text
