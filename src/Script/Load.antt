-- ===== src/Script/Load.antt =====
-- Reading puzzles from strings, in src/sudoku.lua: `strip_string`, `digit_translator` and `board`.
-- A string is the list of its bytes.
pub mod Laws
pub mod Clean
pub mod Hints
pub mod Places
use gtksudoku.Prelude.{
  ℕ, zero, suc, ◌+◌, ◌-◌, ◌*◌, Bool, true, false, not, ◌&&◌, ◌||◌, Option, none, some,
}
use gtksudoku.Prelude.{List, [], ◌∷◌, ◌++◌, map, ◌==◌, leb, if◌then◌else◌, length}
use gtksudoku.Constants.{digits}
use gtksudoku.Script.Cell.{singleton}
use gtksudoku.Script.Board.{
  Place, Board, mk_board, put, pairs, row, determine, Result, bad_input, ok, raised, then_with,
}

-- `sides * sides * sides * sides`.
abbrev pub digits2 : ℕ
digits2 = 81

-- What the pattern `[^.1-9]` does not match.
unfoldable pub is_item : ℕ → Bool
is_item c = c == 46 || (leb 49 c && leb c 57)

unfoldable pub strip_string : List ℕ → List ℕ
strip_string [] = []
strip_string (c ∷ cs) = let rest = strip_string cs in if is_item c then c ∷ rest else rest

-- `digit_translator[c]`.
unfoldable pub digit_translator : ℕ → Option ℕ
digit_translator c = if leb 49 c && leb c 57 then some (c - 48) else none

-- The places in the order of the four loops: the major row, the minor row, the major column and
-- the minor column.
unfoldable pub flatten : List (List Place) → List Place
flatten [] = []
flatten (ps ∷ pss) = ps ++ flatten pss

unfoldable pub table : List Place
unfolding row flatten
table = flatten (map (λ (k : ℕ × ℕ). row (k.0, 1, k.1, 1)) pairs)

-- The loops, over the places that are left and the bytes that are left. Each call of `determine`
-- has fuel for all the cells of a board.
unfoldable pub fill : List Place → List ℕ → Board → Result
unfolding put singleton determine digit_translator
fill [] cs b = ok b false
fill (p ∷ ps) [] b = ok b false
fill (p ∷ ps) (c ∷ cs) b = elim (digit_translator c) [
  | none ↦ fill ps cs b
  | some d ↦
      let b' : Board = put b p (singleton d (b p)).0 in
      then_with (determine (digits2 + 1) p d b') (λ b2 e. fill ps cs b2)
]

-- The error for an input of another length comes before a board is made; the model gives the fresh
-- one.
unfoldable pub board : List ℕ → Result
unfolding strip_string table fill mk_board
board s =
    let t = strip_string s in
    elim (length t == digits2) [
      | true ↦ fill table t mk_board
      | false ↦ raised (bad_input s) mk_board
    ]
