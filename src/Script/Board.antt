-- ===== src/Script/Board.antt =====
-- The boards of src/sudoku.lua, and how the value of a cell is determined. A board is a cell for
-- each place; the places outside of the table are never read. A place is the major row, the major
-- column, the minor row and the minor column, each from 1 to 3. A method that writes to its board
-- returns the new one, and an error that it raises leaves the board as it is by then.
pub mod Loops
pub mod Count
pub mod Houses
pub mod Entries
pub mod Less
pub mod Determine
pub mod Progress
pub mod Clean
use gtksudoku.Prelude.{
  ℕ, zero, suc, ◌+◌, ◌-◌, Bool, true, false, not, ◌&&◌, ◌||◌, Option, none, some,
}
use gtksudoku.Prelude.{List, [], ◌∷◌, map, ◌==◌, ltb, if◌then◌else◌, get_or, set}
use gtksudoku.Constants.{digits}
use gtksudoku.Script.Cell.{Cell, mk_cell, singleton, unknowns, first}

abbrev pub Place : Type 0
Place = ℕ × ℕ × ℕ × ℕ

unfoldable pub same : Place → Place → Bool
same (r1, c1, r2, c2) (s1, d1, s2, d2) = r1 == s1 && c1 == d1 && r2 == s2 && c2 == d2

abbrev pub Board : Type 0
Board = Place → Cell

unfoldable pub mk_board : Board
mk_board p = mk_cell

-- A write through `self[r1][c1][r2][c2]`.
unfoldable pub put : Board → Place → Cell → Board
put b p x q = if same p q then x else b q

-- `cell[d]`, which is nil where there is no such entry, and `cell[d] = false` for an entry.
unfoldable pub mark : Cell → ℕ → Bool
mark cell d = not (d == 0) && get_or cell.marks (d - 1) false

unfoldable pub clear : ℕ → Cell → Cell
clear d cell = record cell { marks = set cell.marks (d - 1) false }

-- Two nested loops from 1 to `sides`.
abbrev pub pairs : List (ℕ × ℕ)
pairs = (1, 1) ∷ (1, 2) ∷ (1, 3) ∷ (2, 1) ∷ (2, 2) ∷ (2, 3) ∷ (3, 1) ∷ (3, 2) ∷ (3, 3) ∷ []

-- The places of the square, the row and the column of a place, in the order of the loops.
unfoldable pub square : Place → List Place
square (r1, c1, r2, c2) = map (λ (k : ℕ × ℕ). (r1, c1, k.0, k.1)) pairs

unfoldable pub row : Place → List Place
row (r1, c1, r2, c2) = map (λ (k : ℕ × ℕ). (r1, k.0, r2, k.1)) pairs

unfoldable pub column : Place → List Place
column (r1, c1, r2, c2) = map (λ (k : ℕ × ℕ). (k.0, c1, k.1, c2)) pairs

-- The errors that the methods raise, with what they name in their messages.
pub data Error : Type 0 where
  board_inconsistent : Error
  bad_index : ℕ → Error
  bad_input : List ℕ → Error

-- How a method ends: with whether the board was changed, or by an error; or the model is out of
-- fuel.
pub data Result : Type 0 where
  ok : Board → Bool → Result
  raised : Error → Board → Result
  out_of_fuel : Result

abbrev pub then_with : Result → (Board → Bool → Result) → Result
then_with (ok b e) k = k b e
then_with (raised w b) k = raised w b
then_with out_of_fuel k = out_of_fuel

-- The loop that takes a digit away from the other places of a house, and counts those determined.
unfoldable pub influence : ℕ → Place → List Place → Board → Bool → ℕ → Board × Bool × ℕ
influence d p [] b e m = (b, e, m)
influence d p (q ∷ qs) b e m =
    let hit = not (same p q) && mark (b q) d in
    let b' : Board = if hit then put b q (clear d (b q)) else b in
    influence d p qs b' (e || hit) (if (b' q).determined then m + 1 else m)

-- The loop that finishes off a house with just one unknown.
unfoldable pub finish : (Place → Board → Result) → List Place → Board → Bool → Result
finish propagate [] b e = ok b e
finish propagate (q ∷ qs) b e = elim (b q).determined [
  | true ↦ finish propagate qs b e
  | false ↦ then_with (propagate q b) (λ b' f. finish propagate qs b' (f || e))
]

-- What `determine` does for a house of the place.
unfoldable pub house : (Place → Board → Result) → Place → ℕ → List Place → Board → Bool → Result
unfolding influence finish
house propagate p d qs b e =
    let (b', e', m) = influence d p qs b e 0 in
    elim (m == digits - 1) [ true ↦ finish propagate qs b' e' | false ↦ ok b' e' ]

-- `propagate_elimination`, by a given `determine`.
unfoldable pub propagate_by : (Place → ℕ → Board → Result) → Place → Board → Result
propagate_by determine p b = elim (ltb 1 (unknowns (b p)) || (b p).determined) [
  | true ↦ ok b false
  | false ↦ elim (first (b p)) [ none ↦ raised board_inconsistent b | some d ↦ determine p d b ]
]

-- `determine`, on fuel. Each call that goes on determines a cell, so the number of cells that are
-- not determined is fuel enough.
unfoldable pub determine : ℕ → Place → ℕ → Board → Result
unfolding put mark propagate_by house square row column
determine zero p d b = out_of_fuel
determine (suc fuel) p d b = elim (not (mark (b p) d) || (b p).determined) [
  | true ↦ ok b false
  | false ↦
      let made = singleton d (b p) in
      let b1 : Board = put b p (record made.0 { determined = true }) in
      let propagate = propagate_by (determine fuel) in
      then_with (house propagate p d (square p) b1 made.1) (λ b2 e2.
        then_with (house propagate p d (row p) b2 e2)
          (λ b3 e3. house propagate p d (column p) b3 e3))
]

unfoldable pub propagate_elimination : ℕ → Place → Board → Result
unfolding propagate_by
propagate_elimination fuel p b = propagate_by (determine fuel) p b
