-- ===== src/Script/Pairs.antt =====
-- The rules of src/sudoku.lua for two digits in a square, a row or a column: two places that are
-- left for a pair have no other digit, and a pair that fills two places is at no other place.
pub mod Places
pub mod Cells
pub mod Laws
pub mod Clean
use gtksudoku.Prelude.{ℕ, ◌+◌, Bool, true, false, not, ◌&&◌, ◌||◌, Option, none, some}
use gtksudoku.Prelude.{List, [], ◌∷◌, ◌==◌, if◌then◌else◌, count_if}
use gtksudoku.Script.Cell.{Cell, only_pair_present}
use gtksudoku.Script.Board.{
  Place, Board, mark, put, square, row, column, Result, bad_index, ok, raised,
}
use gtksudoku.Script.Rules.{spread}
use gtksudoku.Script.Crossing.{taken}

-- The innermost loop, which leaves two digits in a cell, from entry `i` on.
unfoldable pub narrow_from : ℕ → ℕ → ℕ → List Bool → List Bool × Bool
narrow_from d1 d2 i [] = ([], false)
narrow_from d1 d2 i (m ∷ ms) =
    let rest = narrow_from d1 d2 (i + 1) ms in
    if not (i == d1 || i == d2) && m then (false ∷ rest.0, true) else (m ∷ rest.0, rest.1)

unfoldable pub narrow : ℕ → ℕ → Cell → Cell × Bool
unfolding narrow_from
narrow d1 d2 cell = let r = narrow_from d1 d2 1 cell.marks in (record cell { marks = r.0 }, r.1)

-- Whether one of two digits is left.
abbrev pub either : ℕ → ℕ → Board → Place → Bool
either d1 d2 b q = mark (b q) d1 || mark (b q) d2

unfoldable pub leave_pair : ℕ → ℕ → List Place → Board → Bool → Board × Bool
unfolding narrow
leave_pair d1 d2 [] b e = (b, e)
leave_pair d1 d2 (q ∷ qs) b e = elim (either d1 d2 b q) [
  | true ↦ leave_pair d1 d2 qs (put b q (narrow d1 d2 (b q)).0) (e || (narrow d1 d2 (b q)).1)
  | false ↦ leave_pair d1 d2 qs b e
]

unfoldable pub two_places_for_pair : ℕ → ℕ → List Place → Board → Result
unfolding leave_pair
two_places_for_pair d1 d2 qs b =
    if d1 == d2 || not (count_if (either d1 d2 b) qs == 2)
    then ok b false
    else (let r = leave_pair d1 d2 qs b false in ok r.0 r.1)

unfoldable pub take_pair : ℕ → ℕ → List Place → Board → Bool → Board × Bool
take_pair d1 d2 [] b e = (b, e)
take_pair d1 d2 (q ∷ qs) b e =
    let b1 = taken d1 q b in
    elim (only_pair_present d1 d2 (b q)) [
      | true ↦ take_pair d1 d2 qs b e
      | false ↦ take_pair d1 d2 qs (taken d2 q b1) (e || mark (b q) d1 || mark (b1 q) d2)
    ]

unfoldable pub same_pair : ℕ → ℕ → List Place → Board → Result
unfolding take_pair
same_pair d1 d2 qs b =
    if d1 == d2 || not (count_if (λ q. only_pair_present d1 d2 (b q)) qs == 2)
    then ok b false
    else (let r = take_pair d1 d2 qs b false in ok r.0 r.1)

-- A rule for a square gets a row and a column; one for a row or a column its index.
unfoldable pub in_square : (List Place → Board → Result) → ℕ → ℕ → Board → Result
unfolding spread square
in_square rule r c b = elim (spread r) [
  | none ↦ raised (bad_index r) b
  | some i ↦ elim (spread c) [
    | none ↦ raised (bad_index c) b
    | some j ↦ rule (square (i.0, j.0, 1, 1)) b
  ]
]

unfoldable pub in_row : (List Place → Board → Result) → ℕ → Board → Result
unfolding spread row
in_row rule r b = elim (spread r) [
  | none ↦ raised (bad_index r) b
  | some i ↦ rule (row (i.0, 1, i.1, 1)) b
]

unfoldable pub in_column : (List Place → Board → Result) → ℕ → Board → Result
unfolding spread column
in_column rule c b = elim (spread c) [
  | none ↦ raised (bad_index c) b
  | some j ↦ rule (column (1, j.0, 1, j.1)) b
]

unfoldable pub two_places_for_pair_in_square : ℕ → ℕ → ℕ → ℕ → Board → Result
unfolding in_square two_places_for_pair
two_places_for_pair_in_square d1 d2 r c b = in_square (two_places_for_pair d1 d2) r c b

unfoldable pub two_places_for_pair_in_row : ℕ → ℕ → ℕ → Board → Result
unfolding in_row two_places_for_pair
two_places_for_pair_in_row d1 d2 r b = in_row (two_places_for_pair d1 d2) r b

unfoldable pub two_places_for_pair_in_column : ℕ → ℕ → ℕ → Board → Result
unfolding in_column two_places_for_pair
two_places_for_pair_in_column d1 d2 c b = in_column (two_places_for_pair d1 d2) c b

unfoldable pub same_pair_in_square : ℕ → ℕ → ℕ → ℕ → Board → Result
unfolding in_square same_pair
same_pair_in_square d1 d2 r c b = in_square (same_pair d1 d2) r c b

unfoldable pub same_pair_in_row : ℕ → ℕ → ℕ → Board → Result
unfolding in_row same_pair
same_pair_in_row d1 d2 r b = in_row (same_pair d1 d2) r b

unfoldable pub same_pair_in_column : ℕ → ℕ → ℕ → Board → Result
unfolding in_column same_pair
same_pair_in_column d1 d2 c b = in_column (same_pair d1 d2) c b
