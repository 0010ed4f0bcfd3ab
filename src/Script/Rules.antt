-- ===== src/Script/Rules.antt =====
-- The basic rules of src/sudoku.lua: `spread` and the rules that determine a digit with one place
-- left in a square, a row or a column. Digits and indices are numbers from 0 on.
pub mod Counts
pub mod Laws
pub mod Clean
use gtksudoku.Prelude.{
  ℕ, zero, suc, ◌+◌, ◌-◌, ◌*◌, ◌/◌, ◌%◌, Bool, true, false, not, ◌&&◌, ◌||◌, Option, none, some,
}
use gtksudoku.Prelude.{List, [], ◌∷◌, ◌==◌, ltb, if◌then◌else◌, count_if}
use gtksudoku.Constants.{digits}
use gtksudoku.Script.Board.{
  Place, Board, mark, square, row, column, determine, Result, bad_index, ok, raised, then_with,
}
use gtksudoku.Script.Load.{digits2}

-- `spread`; `none` is its error. The ceiling is taken by adding `sides - 1` first.
unfoldable pub spread : ℕ → Option (ℕ × ℕ)
spread index =
    if ltb index 1 || ltb digits index then none else some ((index + 2) / 3, (index - 1) % 3 + 1)

-- The second loop of a rule, over the places of its house.
unfoldable pub settle : ℕ → List Place → Board → Bool → Result
unfolding mark determine
settle d [] b e = ok b e
settle d (q ∷ qs) b e = elim (mark (b q) d) [
  | true ↦ then_with (determine (digits2 + 1) q d b) (λ b' f. settle d qs b' (f || e))
  | false ↦ settle d qs b e
]

-- Both loops of a rule.
unfoldable pub one_place : ℕ → List Place → Board → Result
unfolding mark settle
one_place d qs b = elim (count_if (λ q. mark (b q) d) qs == 1) [
  | true ↦ settle d qs b false
  | false ↦ ok b false
]

unfoldable pub one_place_in_square : ℕ → ℕ → ℕ → Board → Result
unfolding spread one_place square
one_place_in_square d r c b = elim (spread r) [
  | none ↦ raised (bad_index r) b
  | some i ↦ elim (spread c) [
    | none ↦ raised (bad_index c) b
    | some j ↦ one_place d (square (i.0, j.0, 1, 1)) b
  ]
]

unfoldable pub one_place_in_row : ℕ → ℕ → Board → Result
unfolding spread one_place row
one_place_in_row d r b = elim (spread r) [
  | none ↦ raised (bad_index r) b
  | some i ↦ one_place d (row (i.0, 1, i.1, 1)) b
]

unfoldable pub one_place_in_column : ℕ → ℕ → Board → Result
unfolding spread one_place column
one_place_in_column d c b = elim (spread c) [
  | none ↦ raised (bad_index c) b
  | some j ↦ one_place d (column (1, j.0, 1, j.1)) b
]

-- Loops from 1 to a bound.
unfoldable pub for_to : ℕ → (ℕ → Board → Result) → Board → Result
for_to zero body b = ok b false
for_to (suc n) body b =
    then_with (for_to n body b) (λ b1 e1. then_with (body (suc n) b1) (λ b2 e2. ok b2 (e2 || e1)))

unfoldable pub one_place_in_all_squares : Board → Result
unfolding for_to one_place_in_square
one_place_in_all_squares b =
    for_to digits (λ d. for_to 3 (λ r1. for_to 3 (λ c1. one_place_in_square d (r1 * 3) (c1 * 3)))) b

unfoldable pub one_place_in_all_rows : Board → Result
unfolding for_to one_place_in_row
one_place_in_all_rows b = for_to digits (λ d. for_to digits (one_place_in_row d)) b

unfoldable pub one_place_in_all_columns : Board → Result
unfolding for_to one_place_in_column
one_place_in_all_columns b = for_to digits (λ d. for_to digits (one_place_in_column d)) b
