-- ===== src/Edit/Layout.antt =====
-- The window of the edit dialog of src/sudokuedit.c.
use gtksudoku.Prelude.{ℕ, List, [], ◌∷◌, ◌++◌, ℤ}
use gtksudoku.Constants.{min_aspect, max_aspect}
use gtksudoku.Tools.Files.{codes}
use gtksudoku.Gtk.{Call, create, buttons, part, cast, set, add_expand_fill, show_all, run, destroy}
use gtksudoku.Gtk.{
  window, dialog, content_area, grid, cancel, apply, title, aspect_hints, gtk_window,
}
use gtksudoku.Gtk.{gtk_dialog, gtk_box, gtk_container, sudoku_board}

-- `board_changed_callback`, in a build for demonstration: what it prints for a cell that changed.
-- How `printf` writes an `int` is an argument.
unfoldable pub board_changed_callback : (ℤ → List ℕ) → ℤ → ℤ → ℤ → ℤ → List ℕ
board_changed_callback print row col val mode =
    codes "::board-changed - "
    ++ print row
    ++ codes " "
    ++ print col
    ++ codes " "
    ++ print val
    ++ codes " "
    ++ print mode
    ++ codes "\n"

-- `sudoku_edit_dialog` without the board's contents.
unfoldable pub edit_window : List ℕ → List Call
edit_window package_name =
    cast window gtk_window
    ∷ create dialog gtk_dialog
    ∷ set dialog (title (package_name ++ codes " Editor"))
    ∷ buttons dialog ((codes "_Apply", apply) ∷ (codes "_Cancel", cancel) ∷ [])
    ∷ cast dialog gtk_dialog
    ∷ part content_area dialog gtk_box
    ∷ create grid sudoku_board
    ∷ cast grid sudoku_board
    ∷ cast content_area gtk_container
    ∷ add_expand_fill content_area grid
    ∷ cast window gtk_window
    ∷ set window (aspect_hints min_aspect max_aspect)
    ∷ show_all grid
    ∷ cast dialog gtk_dialog
    ∷ run dialog
    ∷ destroy dialog
    ∷ []
