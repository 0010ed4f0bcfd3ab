-- ===== src/App/Windows.antt =====
-- The windows that the program builds: the main window, and the dialogs over it.
use gtksudoku.Prelude.{
  ℕ, ◌≡◌, refl, Bool, true, false, some, List, [], ◌∷◌, ◌++◌, done, exited, ◌⊎◌, inl, inr, arith,
  Bool-cases,
}
use gtksudoku.Gtk.{
  Call, window, gtk_window, gtk_box, gtk_menu_bar, gtk_entry, sudoku_board, gtk_about_dialog,
  gtk_dialog, gtk_scrolled_window, gtk_text_view, box, menu_bar, board, status, entry,
}
use gtksudoku.Gtk.Life.{Hierarchy, Live, live_after}
use gtksudoku.App.Dialogs
use gtksudoku.App.Layout.{main_window, make_window, make_contents}
use gtksudoku.App.Menus.{menu_calls, get_menubar_menu, main_ui_description}
use gtksudoku.ShowText.{show_text, Metrics}
use gtksudoku.Edit.Layout.{edit_window}

-- The main window alone.
abbrev pub alone : List Live
alone = record { name = window; type = gtk_window; top = window } ∷ []

-- What stands in the main window, the latest first.
abbrev pub whole_window : List Live
whole_window =
    record { name = entry; type = gtk_entry; top = window }
    ∷ record { name = status; type = gtk_entry; top = window }
    ∷ record { name = board; type = sudoku_board; top = window }
    ∷ record { name = menu_bar; type = gtk_menu_bar; top = window }
    ∷ record { name = box; type = gtk_box; top = window }
    ∷ record { name = window; type = gtk_window; top = window }
    ∷ []

-- The dialogs of the program.
pub data Opened : List Call → Type 0 where
  open_file : Opened Dialogs.open_file
  save_file_as : Opened Dialogs.save_file_as
  help_about :
      (package_name version bug_report : List ℕ)
      → Opened (Dialogs.help_about package_name version bug_report)
  shown :
      (package_name : List ℕ) (pixels : ℕ → ℕ) (metrics : Metrics) (text : List ℕ)
      → Opened (show_text package_name pixels metrics text)
  edited : (package_name : List ℕ) → Opened (edit_window package_name)

module _ (h : Hierarchy) where
  open h use {
    is_a, same, entry_object, board_widget, dialog_window, window_container, chooser_chooser,
    chooser_dialog, about_about, box_container, entry_editable, scrolled_container,
  }

  pub live_after-Opened : {calls : List Call} → Opened calls → live_after h calls alone ≡ some alone
  unfolding live_after Dialogs.open_file Dialogs.save_file_as Dialogs.help_about show_text
      edit_window
  live_after-Opened open_file = ground (arith, same gtk_window, chooser_dialog)
  live_after-Opened save_file_as = ground (arith, same gtk_window, chooser_dialog, chooser_chooser)
  live_after-Opened (help_about package_name version bug_report) =
      ground (arith, same gtk_about_dialog, about_about)
  live_after-Opened (shown package_name pixels metrics text) = ground (
    arith,
    same gtk_window,
    same gtk_dialog,
    dialog_window,
    same gtk_scrolled_window,
    box_container,
    same gtk_text_view,
    scrolled_container,
  )
  live_after-Opened (edited package_name) =
      ground (arith, same gtk_window, same gtk_dialog, same sudoku_board, box_container)

  -- Where the library accepts the description of the menus, the calls by which `main` builds its
  -- window use each widget as what it is, and leave a window, a box, a menu bar, a board and two
  -- entries, all in the window; where it does not, the program exits with status 1. The types of the
  -- widgets are as the library's manual says.
  pub main_window_lem :
      (package_name : List ℕ) (accepts : List ℕ → Bool)
      → ((calls : List Call) × (main_window package_name accepts ≡ done calls)
          × (accepts main_ui_description ≡ true)
          × (live_after h calls [] ≡ some whole_window))
        ⊎ ((accepts main_ui_description ≡ false) × (main_window package_name accepts ≡ exited 1))
  unfolding live_after main_window make_window make_contents get_menubar_menu
  main_window_lem package_name accepts = elim (Bool-cases (accepts main_ui_description)) [
    | inl e ↦ inl (
      make_window package_name ++ (menu_calls ++ make_contents),
      rw (main_window, e) refl,
      e,
      ground (
        arith,
        same gtk_window,
        same gtk_box,
        same sudoku_board,
        same gtk_entry,
        window_container,
        entry_editable,
        entry_object,
        board_widget,
      ),
    )
    | inr e ↦ inr (e, rw (main_window, e) refl)
  ]
