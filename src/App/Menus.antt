-- ===== src/App/Menus.antt =====
-- The menu bar of src/gtksudoku.c: the table of actions, the description of the menus, and
-- `get_menubar_menu`. Whether the library accepts the description is an argument.
pub mod Wiring
use gtksudoku.Prelude.{
  ℕ, zero, suc, ◌+◌, Bool, true, false, ◌&&◌, Option, none, some, List, [], ◌∷◌, ◌++◌, ◌==◌,
  if◌then◌else◌,
}
use gtksudoku.Prelude.{Outcome, done, exited}
use gtksudoku.Tools.Files.{codes, joined}
use gtksudoku.Gtk.{Call, cast, set_accelerators, create, window, menu_bar, gtk_window, gtk_menu_bar}

-- The functions that the actions call.
pub data Callback : Type 0 where
  open_file save_file_as gtk_main_quit help_intro help_about : Callback

-- `GtkActionEntry`; fields that an initializer leaves out are null.
pub record ActionEntry : Type 0 where
  pub name : List ℕ
  pub stock_id : Option (List ℕ)
  pub label : List ℕ
  pub accelerator : Option (List ℕ)
  pub tooltip : Option (List ℕ)
  pub callback : Option Callback

abbrev menu_entry : List ℕ → List ℕ → ActionEntry
menu_entry name label = record {
  name = name;
  stock_id = none;
  label = label;
  accelerator = none;
  tooltip = none;
  callback = none;
}

abbrev item_entry : List ℕ → List ℕ → List ℕ → List ℕ → List ℕ → Callback → ActionEntry
item_entry name stock label accelerator tooltip callback = record {
  name = name;
  stock_id = some stock;
  label = label;
  accelerator = some accelerator;
  tooltip = some tooltip;
  callback = some callback;
}

unfoldable pub main_entries : List ActionEntry
main_entries =
    menu_entry (codes "FileMenu") (codes "_File")
    ∷ menu_entry (codes "HelpMenu") (codes "_Help")
    ∷ item_entry (codes "Open") (codes "_Open") (codes "_Open") (codes "<control>O")
        (codes "Open a file and load board") open_file
    ∷ item_entry (codes "SaveAs") (codes "Save _As") (codes "Save _As") (codes "<control>S")
        (codes "Save a board in a file") save_file_as
    ∷ item_entry (codes "Quit") (codes "_Quit") (codes "_Quit") (codes "<control>Q")
        (codes "Quit the program") gtk_main_quit
    ∷ item_entry (codes "Intro") (codes "_Intro") (codes "_Intro") (codes "<control>I")
        (codes "Help about this program") help_intro
    ∷ item_entry (codes "About") (codes "_About") (codes "_About") (codes "<control>A")
        (codes "About this program") help_about
    ∷ []

unfoldable pub main_ui_description : List ℕ
main_ui_description = joined (
    "<ui>" ∷ "  <menubar name='MainMenu'>" ∷ "    <menu action='FileMenu'>"
    ∷ "      <menuitem action='Open'/>" ∷ "      <menuitem action='SaveAs'/>"
    ∷ "      <menuitem action='Quit'/>" ∷ "    </menu>" ∷ "    <menu action='HelpMenu'>"
    ∷ "      <menuitem action='Intro'/>" ∷ "      <menuitem action='About'/>" ∷ "    </menu>"
    ∷ "  </menubar>" ∷ "</ui>" ∷ [])

-- The calls that reach the window.
abbrev pub menu_calls : List Call
menu_calls = cast window gtk_window ∷ set_accelerators window ∷ create menu_bar gtk_menu_bar ∷ []

-- `get_menubar_menu`: the widget and the calls that make it, or the exit where the library refuses
-- the description; the last argument is what it answers for it.
unfoldable pub get_menubar_menu :
    List ℕ → List ActionEntry → List ℕ → (List ℕ → Bool) → Outcome (List Call)
get_menubar_menu path entries ui_description accepts =
    if accepts ui_description then done menu_calls else exited 1
