-- ===== src/Script/Hint.antt =====
-- `Board:hint` of src/sudoku.lua: the first place where a simple rule applies.
use gtksudoku.Prelude.{ℕ, ◌+◌, ◌-◌, ◌*◌, Bool, not, ◌&&◌, Option, none, some}
use gtksudoku.Prelude.{List, [], ◌∷◌, ◌++◌, ◌==◌, if◌then◌else◌, count_if}
use gtksudoku.Tools.Files.{codes}
use gtksudoku.Script.Cell.{unknowns, first}
use gtksudoku.Script.Board.{Place, Board, mark, pairs, square, row, column}
use gtksudoku.Script.Strategies.{numeral, one_to_nine}

-- A loop that ends with the first answer.
unfoldable pub first_of {ℓ κ} : {A : Type ℓ} {B : Type κ} → (A → Option B) → List A → Option B
first_of f [] = none
first_of f (x ∷ xs) = elim (f x) [ none ↦ first_of f xs | some y ↦ some y ]

-- `not cell.determined and cell[d]`
abbrev pub possible : ℕ → Board → Place → Bool
possible d b q = not (b q).determined && mark (b q) d

-- `(r1 - 1) * sides + r2`
abbrev pub one_based_index : ℕ → ℕ → ℕ
one_based_index major minor = (major - 1) * 3 + minor

-- "look at d in (row, col)"
abbrev pub look_at : ℕ → Place → List ℕ
look_at d (r1, c1, r2, c2) =
    codes "look at "
    ++ (numeral d
        ++ (codes " in ("
            ++ (numeral (one_based_index r1 r2)
                ++ (codes ", " ++ (numeral (one_based_index c1 c2) ++ codes ")")))))

-- A digit of a house that has just one place: what to say of it.
unfoldable pub in_house : (ℕ → Option (List ℕ)) → List Place → Board → Option (List ℕ)
unfolding first_of
in_house say qs b =
    first_of (λ d. if count_if (possible d b) qs == 1 then say d else none) one_to_nine

unfoldable pub square_hint : Board → ℕ × ℕ → Option (List ℕ)
unfolding in_house square first_of
square_hint b k =
    let qs = square (k.0, k.1, 1, 1) in
    in_house (λ d. first_of (λ q. if possible d b q then some (look_at d q) else none) qs) qs b

unfoldable pub row_hint : Board → ℕ × ℕ → Option (List ℕ)
unfolding in_house row
row_hint b k =
    in_house
      (λ d. some (
        codes "look at " ++ (numeral d ++ (codes " in row " ++ numeral (one_based_index k.0 k.1)))))
      (row (k.0, 1, k.1, 1)) b

unfoldable pub column_hint : Board → ℕ × ℕ → Option (List ℕ)
unfolding in_house column
column_hint b k =
    in_house
      (λ d. some (
        codes "look at "
        ++ (numeral d ++ (codes " in column " ++ numeral (one_based_index k.0 k.1)))))
      (column (1, k.0, 1, k.1)) b

-- A cell with just one digit left; `first` then has it.
unfoldable pub cell_hint : Board → Place → Option (List ℕ)
cell_hint b q =
    if not (b q).determined && unknowns (b q) == 1
    then (elim (first (b q)) [ none ↦ none | some d ↦ some (look_at d q) ])
    else none

unfoldable pub or_hint : Option (List ℕ) → Option (List ℕ) → Option (List ℕ)
or_hint none y = y
or_hint (some x) y = some x

-- The message; the places of the last loop are in the order of `print_all`.
unfoldable pub hint : List Place → Board → List ℕ
unfolding first_of square_hint row_hint column_hint cell_hint or_hint
hint places b =
    elim (or_hint (first_of (square_hint b) pairs) (
      or_hint (first_of (row_hint b) pairs)
        (or_hint (first_of (column_hint b) pairs) (first_of (cell_hint b) places)))) [
          | none ↦ codes "No hint available"
          | some message ↦ message
        ]
