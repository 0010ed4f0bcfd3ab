-- ===== src/Script/Session.antt =====
-- The current board and the history of src/sudoku.lua, and what goes to the window and to files:
-- comparing, showing and printing boards, `load` and `save`. A board is a value here, so its `clone`
-- is the board itself; a board in the history is never the current one.
pub mod Texts
pub mod Window
use gtksudoku.Prelude.{ℕ, ◌+◌, ◌-◌, ◌*◌, Bool, true, false, not, ◌&&◌, ◌||◌, Option, none, some}
use gtksudoku.Prelude.{List, [], ◌∷◌, ◌++◌, map, ◌==◌, if◌then◌else◌, ℤ, pos, negsuc}
use gtksudoku.Script.Cell.{Cell, differ, unknowns, first, print_item}
use gtksudoku.Script.Board.{
  Place, Board, mk_board, pairs, row, Result, Error, ok, raised, out_of_fuel,
}
use gtksudoku.Script.Solution.{for_sides}
use gtksudoku.Script.Load
use gtksudoku.Script.Load.{table, flatten}

-- `Cell:same`. What the other cell has behind the entries of this one is not looked at.
unfoldable pub same_marks : List Bool → List Bool → Bool
same_marks [] ns = true
same_marks (m ∷ ms) [] = false
same_marks (m ∷ ms) (n ∷ ns) = not (differ m n) && same_marks ms ns

unfoldable pub same_cell : Cell → Cell → Bool
unfolding same_marks
same_cell x y = not (differ x.determined y.determined) && same_marks x.marks y.marks

-- `Board:same`
unfoldable pub same_board : Board → Board → Bool
unfolding same_cell
same_board b c = for_sides (λ r1.
    for_sides (λ c1.
      for_sides (λ r2. for_sides (λ c2. same_cell (b (r1, c1, r2, c2)) (c (r1, c1, r2, c2))))))

-- The current board, the history with the latest board first, and the print mode.
pub record Session : Type 0 where
  pub it : Option Board
  pub history : List Board
  pub details : Bool

unfoldable pub push : Session → Session
unfolding same_board
push s = elim s.it [
  | none ↦ s
  | some b ↦ elim s.history [
    | [] ↦ record s { history = b ∷ [] }
    | top ∷ rest ↦ if same_board b top then s else record s { history = b ∷ top ∷ rest }
  ]
]

-- `back`, for a current board: whether the current board is another then. Of a board that is popped
-- the rest of the history is left.
unfoldable pub back : Board → Session → Session × Bool
unfolding same_board
back b s = elim s.history [
  | [] ↦ (s, false)
  | top ∷ rest ↦ elim (same_board top b) [
    | false ↦ (record s { it = some top; history = rest }, true)
    | true ↦ elim rest [
      | [] ↦ (record s { history = [] }, false)
      | top' ∷ rest' ↦ (record s { it = some top'; history = rest' }, true)
    ]
  ]
]

-- `swap`: the current board is pushed below the one that `back` makes current.
unfoldable pub swap : Board → Session → Session × Bool
unfolding push back
swap b s =
    let s1 = (back b s).0 in
    let s2 = push (record s1 { it = some b }) in (record s2 { it = s1.it }, true)

unfoldable pub new : Session → Session × Bool
unfolding push mk_board
new s = (record (push s) { it = some mk_board }, true)

-- `Cell:show`; `none` is an error.
unfoldable pub show_cell : Cell → Option ℕ
show_cell cell =
    if cell.determined && unknowns cell == 1
    then (elim (first cell) [ none ↦ none | some d ↦ some (48 + d) ])
    else some 46

unfoldable pub show_cells : List Place → Board → Option (List ℕ)
unfolding show_cell
show_cells [] b = some []
show_cells (p ∷ ps) b = elim (show_cell (b p)) [
  | none ↦ none
  | some c ↦ elim (show_cells ps b) [ none ↦ none | some s ↦ some (c ∷ s) ]
]

-- `Board:__tostring`
unfoldable pub tostring : Board → Option (List ℕ)
unfolding show_cells table
tostring b = show_cells table b

-- `Board:show`: the rows, each of which ends with a newline.
unfoldable pub show_rows : List (ℕ × ℕ) → Board → Option (List ℕ)
unfolding show_cells row
show_rows [] b = some []
show_rows (k ∷ ks) b = elim (show_cells (row (k.0, 1, k.1, 1)) b) [
  | none ↦ none
  | some s ↦ elim (show_rows ks b) [ none ↦ none | some rest ↦ some (s ++ 10 ∷ rest) ]
]

unfoldable pub show : Board → Option (List ℕ)
unfolding show_rows
show b = show_rows pairs b

-- The arguments of a call of `set_val`.
pub record SetVal : Type 0 where
  pub row : ℕ
  pub col : ℕ
  pub val : ℤ
  pub mode : Bool

-- `sides * (major - 1) + minor - 1`
abbrev pub zero_based_index : ℕ → ℕ → ℕ
zero_based_index major minor = 3 * (major - 1) + minor - 1

-- `Board:print_item`, which also gives the call.
unfoldable pub print_place : Bool → Board → Place → SetVal
print_place details b (r1, c1, r2, c2) =
    let item = print_item details (b (r1, c1, r2, c2)) in
    record {
      row = zero_based_index r1 r2;
      col = zero_based_index c1 c2;
      val = item.0;
      mode = item.1;
    }

-- The places in the order of the loops of `print_all`: square by square.
unfoldable pub squares : List Place
unfolding flatten
squares = flatten (map (λ (k : ℕ × ℕ). map (λ (l : ℕ × ℕ). (k.0, k.1, l.0, l.1)) pairs) pairs)

unfoldable pub print_all : Bool → Board → List SetVal
unfolding print_place squares
print_all details b = map (print_place details b) squares

-- `print_blank_board`; a mode that is left out counts as false.
abbrev blank : Place → SetVal
blank (r1, c1, r2, c2) = record {
  row = zero_based_index r1 r2;
  col = zero_based_index c1 c2;
  val = negsuc 0;
  mode = false;
}

unfoldable pub print_blank_board : List SetVal
unfolding squares
print_blank_board = map blank squares

-- How a call of the script ends: with a message or nil, with the calls of `set_val` and of `show`
-- that it made; or with an error.
pub data Reply : Type 0 where
  said : Option (List ℕ) → Session → List SetVal → Option (List ℕ) → Reply
  failed : Error → Session → Reply
  nothing_to_save : Session → Reply
  stuck : Reply

-- What goes on with a board that was read.
abbrev pub reading : (Board → Reply) → Session → Result → Reply
reading k s (ok b e) = k b
reading k s (raised w b) = failed w s
reading k s out_of_fuel = stuck

-- `load`
unfoldable pub load : List ℕ → Session → Reply
unfolding Load.board print_all
load text s =
    reading (λ b. said none (record s { it = some b; history = [] }) (print_all s.details b) none) s
      (Load.board text)
