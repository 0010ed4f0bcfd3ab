-- ===== src/App/Dialogs.antt =====
-- The dialogs of the menu of src/gtksudoku.c: the windows that they open. What a file dialog is
-- answered, and what `load_file` and `save_file` then do, is in App.
use gtksudoku.Prelude.{ℕ, List, [], ◌∷◌}
use gtksudoku.Tools.Files.{codes}
use gtksudoku.App.Texts.{intro, license as license_text, comments as comments_text}
use gtksudoku.ShowText.{Metrics, show_text}
use gtksudoku.Gtk.{Call, create, buttons, cast, set, run, destroy, window, dialog, cancel, accept}
use gtksudoku.Gtk.{
  title, overwrite_confirmation, program_name, version, copyright, comments, license,
}
use gtksudoku.Gtk.{wrap_license, website, gtk_window, gtk_dialog, gtk_file_chooser_dialog}
use gtksudoku.Gtk.{gtk_file_chooser, gtk_about_dialog}

unfoldable pub open_file : List Call
open_file =
    cast window gtk_window
    ∷ create dialog gtk_file_chooser_dialog
    ∷ set dialog (title (codes "Open File"))
    ∷ buttons dialog ((codes "_Cancel", cancel) ∷ (codes "_Open", accept) ∷ [])
    ∷ cast dialog gtk_dialog
    ∷ run dialog
    ∷ destroy dialog
    ∷ []

unfoldable pub save_file_as : List Call
save_file_as =
    cast window gtk_window
    ∷ create dialog gtk_file_chooser_dialog
    ∷ set dialog (title (codes "Save File"))
    ∷ buttons dialog ((codes "_Cancel", cancel) ∷ (codes "_Save", accept) ∷ [])
    ∷ cast dialog gtk_file_chooser
    ∷ set dialog overwrite_confirmation
    ∷ cast dialog gtk_dialog
    ∷ run dialog
    ∷ destroy dialog
    ∷ []

unfoldable pub help_intro : List ℕ → (ℕ → ℕ) → Metrics → List Call
help_intro package_name pixels metrics = show_text package_name pixels metrics (intro package_name)

-- `help_about`; the arguments are `PACKAGE_NAME`, `PACKAGE_VERSION` and `PACKAGE_BUGREPORT`.
unfoldable pub help_about : List ℕ → List ℕ → List ℕ → List Call
help_about package_name package_version bug_report =
    create dialog gtk_about_dialog
    ∷ cast dialog gtk_about_dialog
    ∷ set dialog (program_name package_name)
    ∷ cast dialog gtk_about_dialog
    ∷ set dialog (version package_version)
    ∷ cast dialog gtk_about_dialog
    ∷ set dialog (copyright (codes "Copyright (C) 2012 John D. Ramsdell"))
    ∷ cast dialog gtk_about_dialog
    ∷ set dialog (comments comments_text)
    ∷ cast dialog gtk_about_dialog
    ∷ set dialog wrap_license
    ∷ cast dialog gtk_about_dialog
    ∷ set dialog (license (license_text package_name))
    ∷ cast dialog gtk_about_dialog
    ∷ set dialog (website bug_report)
    ∷ cast dialog gtk_dialog
    ∷ run dialog
    ∷ destroy dialog
    ∷ []
