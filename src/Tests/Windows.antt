-- ===== src/Tests/Windows.antt =====
-- Runs of the main window.
use gtksudoku.Prelude.{ℕ, ◌≡◌, refl, true, false, some, List, [], ◌∷◌, arith}
use gtksudoku.Prelude.{done, fault, IsDone}
use gtksudoku.Tools.Files.{codes}
use gtksudoku.App
use gtksudoku.App.{OutFile, opened}
use gtksudoku.App.Laws.{save_file_fault}
use gtksudoku.App.Program
use gtksudoku.App.Program.{Start}
use gtksudoku.Prelude.{◌&&◌}
use gtksudoku.App.Startup.{main-IsDone}
use gtksudoku.Tests.Dialogs.{puzzle}
use gtksudoku.Tests.Scripts.{toy, atoi, malloc_ok, idle, atoi-StopsAtSpace, Toy}
use gtksudoku.Gtk.Life.{Hierarchy, live_after}
use gtksudoku.App.Windows.{alone, whole_window, open_file, live_after-Opened, main_window_lem}
use gtksudoku.App.Dialogs
use gtksudoku.App.Layout.{main_window}
use gtksudoku.Gtk
use gtksudoku.Gtk.Life
use gtksudoku.Gtk.{Call, GType}
use gtksudoku.Prelude.{Bool, none, ◌==◌, ◌||◌}
use gtksudoku.Prelude.{exited, ◌⊎◌}

abbrev window_of : Toy → App.App toy atoi malloc_ok
window_of st = record {
  status = codes "hello";
  entry = [];
  script = st;
  written = [];
  helps = [];
  running = true;
}

abbrev board_file : OutFile
board_file = record { openable = true; name = codes "board.txt" }

save_file_fault_example : App.save_file toy atoi malloc_ok board_file (window_of idle) ≡ fault
save_file_fault_example =
    save_file_fault toy atoi malloc_ok (λ n. refl) board_file (window_of idle) (omega arith)

abbrev session : List App.Event
session =
    App.enter (codes "prune 4")
    ∷ App.help_intro
    ∷ App.open_file (some (opened puzzle false))
    ∷ App.enter (codes "  ")
    ∷ App.quit
    ∷ []

abbrev start : Start
start = record { display = true; package_name = codes "gtksudoku"; accepts = λ description. true }

main-IsDone_example :
    let result = Program.main toy atoi malloc_ok start (some (opened puzzle false)) session in
    (((true && true) ≡ true) × IsDone result) ⊎ (((true && true) ≡ false) × (result ≡ exited 1))
main-IsDone_example =
    main-IsDone toy atoi malloc_ok (λ n. refl) atoi-StopsAtSpace start (some (opened puzzle false))
      session (tt, (tt, (tt, (tt, (tt, tt)))))

-- A number for each type.
abbrev number_of : GType → ℕ
number_of Gtk.sudoku_board = 0
number_of Gtk.sudoku_cell = 1
number_of Gtk.gtk_widget = 2
number_of Gtk.gtk_container = 3
number_of Gtk.gtk_window = 4
number_of Gtk.gtk_dialog = 5
number_of Gtk.gtk_file_chooser_dialog = 6
number_of Gtk.gtk_file_chooser = 7
number_of Gtk.gtk_about_dialog = 8
number_of Gtk.gtk_box = 9
number_of Gtk.gtk_entry = 10
number_of Gtk.gtk_editable = 11
number_of Gtk.gtk_scrolled_window = 12
number_of Gtk.gtk_text_view = 13
number_of Gtk.gtk_table = 14
number_of Gtk.gtk_drawing_area = 15
number_of Gtk.gtk_menu_bar = 16
number_of Gtk.g_object = 17

-- The classes above each type, and its interfaces, as the library's manual lists them.
abbrev above : GType → List GType
above Gtk.sudoku_board = Gtk.gtk_table ∷ Gtk.gtk_container ∷ Gtk.gtk_widget ∷ Gtk.g_object ∷ []
above Gtk.sudoku_cell = Gtk.gtk_drawing_area ∷ Gtk.gtk_widget ∷ Gtk.g_object ∷ []
above Gtk.gtk_widget = Gtk.g_object ∷ []
above Gtk.gtk_container = Gtk.gtk_widget ∷ Gtk.g_object ∷ []
above Gtk.gtk_window = Gtk.gtk_container ∷ Gtk.gtk_widget ∷ Gtk.g_object ∷ []
above Gtk.gtk_dialog = Gtk.gtk_window ∷ Gtk.gtk_container ∷ Gtk.gtk_widget ∷ Gtk.g_object ∷ []
above Gtk.gtk_file_chooser_dialog =
    Gtk.gtk_dialog ∷ Gtk.gtk_file_chooser ∷ Gtk.gtk_window ∷ Gtk.gtk_container ∷ Gtk.gtk_widget
    ∷ Gtk.g_object ∷ []
above Gtk.gtk_file_chooser = []
above Gtk.gtk_about_dialog =
    Gtk.gtk_dialog ∷ Gtk.gtk_window ∷ Gtk.gtk_container ∷ Gtk.gtk_widget ∷ Gtk.g_object ∷ []
above Gtk.gtk_box = Gtk.gtk_container ∷ Gtk.gtk_widget ∷ Gtk.g_object ∷ []
above Gtk.gtk_entry = Gtk.gtk_editable ∷ Gtk.gtk_widget ∷ Gtk.g_object ∷ []
above Gtk.gtk_editable = []
above Gtk.gtk_scrolled_window = Gtk.gtk_container ∷ Gtk.gtk_widget ∷ Gtk.g_object ∷ []
above Gtk.gtk_text_view = Gtk.gtk_container ∷ Gtk.gtk_widget ∷ Gtk.g_object ∷ []
above Gtk.gtk_table = Gtk.gtk_container ∷ Gtk.gtk_widget ∷ Gtk.g_object ∷ []
above Gtk.gtk_drawing_area = Gtk.gtk_widget ∷ Gtk.g_object ∷ []
above Gtk.gtk_menu_bar = Gtk.gtk_container ∷ Gtk.gtk_widget ∷ Gtk.g_object ∷ []
above Gtk.g_object = []

abbrev listed : GType → List GType → Bool
listed t [] = false
listed t (u ∷ us) = number_of t == number_of u || listed t us

abbrev is_one_of : GType → GType → Bool
is_one_of t u = listed u (t ∷ above t)

is_one_of_itself : (t : GType) → is_one_of t t ≡ true
is_one_of_itself Gtk.sudoku_board = refl
is_one_of_itself Gtk.sudoku_cell = refl
is_one_of_itself Gtk.gtk_widget = refl
is_one_of_itself Gtk.gtk_container = refl
is_one_of_itself Gtk.gtk_window = refl
is_one_of_itself Gtk.gtk_dialog = refl
is_one_of_itself Gtk.gtk_file_chooser_dialog = refl
is_one_of_itself Gtk.gtk_file_chooser = refl
is_one_of_itself Gtk.gtk_about_dialog = refl
is_one_of_itself Gtk.gtk_box = refl
is_one_of_itself Gtk.gtk_entry = refl
is_one_of_itself Gtk.gtk_editable = refl
is_one_of_itself Gtk.gtk_scrolled_window = refl
is_one_of_itself Gtk.gtk_text_view = refl
is_one_of_itself Gtk.gtk_table = refl
is_one_of_itself Gtk.gtk_drawing_area = refl
is_one_of_itself Gtk.gtk_menu_bar = refl
is_one_of_itself Gtk.g_object = refl

abbrev manual : Hierarchy
manual = record {
  is_a = is_one_of;
  same = is_one_of_itself;
  entry_object = refl;
  board_widget = refl;
  dialog_window = refl;
  window_container = refl;
  chooser_chooser = refl;
  chooser_dialog = refl;
  about_about = refl;
  box_container = refl;
  entry_editable = refl;
  scrolled_container = refl;
}

-- A box is no window, so a wrong cast is a misuse.
wrong_cast :
    live_after manual (Gtk.create Gtk.box Gtk.gtk_box ∷ Gtk.cast Gtk.box Gtk.gtk_window ∷ []) []
    ≡ none
unfolding live_after Gtk.Life.step Gtk.Life.find
wrong_cast = refl

live_after-Opened_example : live_after manual Dialogs.open_file alone ≡ some alone
live_after-Opened_example = live_after-Opened manual open_file

main_window_lem_example :
    ((calls : List Call) × (main_window (codes "gtksudoku") (λ s. true) ≡ done calls)
      × (true ≡ true)
      × (live_after manual calls [] ≡ some whole_window))
    ⊎ ((true ≡ false) × (main_window (codes "gtksudoku") (λ s. true) ≡ exited 1))
main_window_lem_example = main_window_lem manual (codes "gtksudoku") (λ s. true)
