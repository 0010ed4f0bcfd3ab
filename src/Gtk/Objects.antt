-- ===== src/Gtk/Objects.antt =====
-- The program's own classes as types of the object system: `G_DEFINE_TYPE` of src/sudokuboard.c and
-- src/sudokucell.c, and the macros of their headers. The library's types are an argument.
use gtksudoku.Prelude.{
  ◌≡◌, refl, Bool, true, false, ◌||◌, Option, none, some, List, [], ◌∷◌, if◌then◌else◌, arith,
}
use gtksudoku.Gtk.{GType, sudoku_board, sudoku_cell, gtk_table, gtk_drawing_area}

-- The field that an instance begins with, in `struct _SudokuBoard` and in `struct _SudokuCell`.
abbrev pub board_parent : GType
board_parent = gtk_table

abbrev pub cell_parent : GType
cell_parent = gtk_drawing_area

-- The parents of the types that the program defines; for the library's types see there.
unfoldable pub parent : GType → Option GType
parent sudoku_board = some board_parent
parent sudoku_cell = some cell_parent
parent _ = none

unfoldable same_type : GType → GType → Bool
same_type sudoku_board sudoku_board = true
same_type sudoku_cell sudoku_cell = true
same_type _ _ = false

-- Whether an instance of a type is one of another, from what the library knows of its own types.
unfoldable pub is_a : (GType → GType → Bool) → GType → GType → Bool
unfolding parent same_type
is_a library t u = elim (parent t) [ none ↦ library t u | some p ↦ same_type t u || library p u ]

-- What a cast writes to the log, if the object is not of the type; the pointer is the same.
pub data Warning : Type 0 where
  invalid_cast : GType → GType → Warning

module _ (library : GType → GType → Bool) where
  -- `SUDOKU_BOARD` and `IS_SUDOKU_BOARD`, on an object of a type.
  unfoldable pub board_cast : GType → List Warning
  board_cast t = if is_a library t sudoku_board then [] else invalid_cast t sudoku_board ∷ []

  unfoldable pub is_board : GType → Bool
  is_board t = is_a library t sudoku_board

  -- `IS_SUDOKU_BOARD_CLASS`, on a class of a type; a class knows its type as an instance does.
  unfoldable pub is_board_class : GType → Bool
  is_board_class t = is_a library t sudoku_board

  -- `SUDOKU_CELL` and `IS_SUDOKU_CELL`
  unfoldable pub cell_cast : GType → List Warning
  cell_cast t = if is_a library t sudoku_cell then [] else invalid_cast t sudoku_cell ∷ []

  unfoldable pub is_cell : GType → Bool
  is_cell t = is_a library t sudoku_cell

  -- `IS_SUDOKU_CELL_CLASS`
  unfoldable pub is_cell_class : GType → Bool
  is_cell_class t = is_a library t sudoku_cell

  -- What `sudoku_board_new` and `sudoku_cell_new` make passes every cast of the program: to its own
  -- class, and to every type that the library's class below it is one of.
  pub new_objects :
      (u : GType)
      → (board_cast sudoku_board ≡ [])
        × (cell_cast sudoku_cell ≡ [])
        × (library gtk_table u ≡ true → is_a library sudoku_board u ≡ true)
        × (library gtk_drawing_area u ≡ true → is_a library sudoku_cell u ≡ true)
  unfolding board_cast cell_cast is_a same_type parent
  new_objects u = (refl, refl, λ h. ground (arith, h), λ h. ground (arith, h))
