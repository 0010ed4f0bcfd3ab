-- ===== src/App/Layout.antt =====
-- `main` of src/gtksudoku.c as it builds the main window; what it does then is in App.
use gtksudoku.Prelude.{ℕ, Bool, true, false, List, [], ◌∷◌, ◌++◌, Outcome, done, ◌>>=◌}
use gtksudoku.Constants.{min_aspect, max_aspect}
use gtksudoku.Tools.Files.{codes}
use gtksudoku.App.Menus.{main_entries, main_ui_description, get_menubar_menu}
use gtksudoku.Gtk.{Call, create, cast, set, add, pack_start, connect, set_icon}
use gtksudoku.Gtk.{window, box, menu_bar, board, status, entry, title, aspect_hints, can_focus}
use gtksudoku.Gtk.{editable, gtk_main_quit, entry_callback, gtk_window, gtk_box, gtk_container}
use gtksudoku.Gtk.{gtk_widget, gtk_entry, gtk_editable, sudoku_board, g_object}

-- The window and its box.
unfoldable pub make_window : List ℕ → List Call
make_window package_name =
    create window gtk_window
    ∷ cast window gtk_window
    ∷ set window (title package_name)
    ∷ connect window (codes "destroy") gtk_main_quit
    ∷ set_icon window
    ∷ create box gtk_box
    ∷ cast window gtk_container
    ∷ add window box
    ∷ []

-- The board, the status line and the entry line.
unfoldable pub make_contents : List Call
make_contents =
    cast box gtk_box
    ∷ pack_start box menu_bar false false 0
    ∷ create board sudoku_board
    ∷ cast board sudoku_board
    ∷ cast box gtk_box
    ∷ pack_start box board true true 0
    ∷ cast window gtk_window
    ∷ cast board gtk_widget
    ∷ set window (aspect_hints min_aspect max_aspect)
    ∷ create status gtk_entry
    ∷ set status (can_focus false)
    ∷ cast status gtk_editable
    ∷ set status (editable false)
    ∷ cast status gtk_entry
    ∷ cast box gtk_box
    ∷ pack_start box status false false 0
    ∷ create entry gtk_entry
    ∷ cast entry g_object
    ∷ connect entry (codes "activate") entry_callback
    ∷ cast box gtk_box
    ∷ pack_start box entry false false 0
    ∷ []

-- All the calls up to the start of the interpreter. The arguments are `PACKAGE_NAME`, and whether
-- the library accepts a description of menus.
unfoldable pub main_window : List ℕ → (List ℕ → Bool) → Outcome (List Call)
main_window package_name accepts = do
  menu ← get_menubar_menu (codes "/MainMenu") main_entries main_ui_description accepts
  done (make_window package_name ++ (menu ++ make_contents))
