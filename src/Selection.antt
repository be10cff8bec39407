-- ===== src/Selection.antt =====
-- The text selection of the terminal client (crates/pyre-tui/src/model/selection.rs): two positions
-- in reading order, rows first.
use pyre.Prelude.{
  ℕ, ◌≡◌, ◌∙◌, Bool, true, false, ◌&&◌, ◌||◌, ltb, leb, ◌==◌, if◌then◌else◌, min, arith,
}
use pyre.Prelude.{Bool-cases, inl, inr}

pub record Cell : Type 0 where
  pub row : ℕ
  pub col : ℕ

pub record Selection : Type 0 where
  pub start : Cell
  pub end : Cell

-- The order of tuples.
abbrev pub before : Cell → Cell → Bool
before a b = ltb a.row b.row || ((a.row == b.row) && leb a.col b.col)

abbrev pub clamp_point : ℕ → ℕ → Cell → Cell
clamp_point max_row max_col p = record { row = min p.row max_row; col = min p.col max_col }

unfoldable pub clamp_to : Selection → ℕ → ℕ → Selection
clamp_to s max_row max_col = record {
  start = clamp_point max_row max_col s.start;
  end = clamp_point max_row max_col s.end;
}

unfoldable pub normalized : Selection → Cell × Cell
normalized s = if before s.start s.end then (s.start, s.end) else (s.end, s.start)

abbrev pub inside : Cell × Cell → ℕ → ℕ → Bool
inside (first, last) row col =
    if ltb row first.row || ltb last.row row
    then false
    else if (row == first.row) && ltb col first.col
    then false
    else if (row == last.row) && ltb last.col col
    then false
    else true

unfoldable pub contains : Selection → ℕ → ℕ → Bool
contains s row col = inside (normalized s) row col

inside-between :
    (a b : Cell) (row col : ℕ)
    → inside (a, b) row col
      ≡ (before a (record { row = row; col = col }) && before (record { row = row; col = col }) b)
inside-between a b row col = ground arith

-- A cell is in the selection just where it lies in reading order from the earlier one of the two
-- ends to the later one, whichever end the drag began at.
pub contains-between :
    (s : Selection) (row col : ℕ)
    → let cell : Cell = record { row = row; col = col } in
      contains s row col
      ≡ ((before s.start cell && before cell s.end) || (before s.end cell && before cell s.start))
unfolding contains normalized
contains-between s row col = elim (Bool-cases (before s.start s.end)) [
  | inl e ↦ rw e (inside-between s.start s.end row col ∙ forward s.start s.end e)
  | inr e ↦ rw e (inside-between s.end s.start row col ∙ backward s.start s.end e)
]
  where
    cell : Cell
    cell = record { row = row; col = col }

    forward :
        (a b : Cell)
        → before a b ≡ true
        → (before a cell && before cell b)
          ≡ ((before a cell && before cell b) || (before b cell && before cell a))
    forward a b e = ground (arith, e)

    backward :
        (a b : Cell)
        → before a b ≡ false
        → (before b cell && before cell a)
          ≡ ((before a cell && before cell b) || (before b cell && before cell a))
    backward a b e = ground (arith, e)
