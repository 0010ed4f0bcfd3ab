-- ===== src/Interp/Gui.antt =====
-- The functions that src/interp.h asks for, and those that src/gtksudoku.c gives: the callbacks of
-- the script reach the window through them.
use gtksudoku.Prelude.{ℕ, Bool, Option, List, ℤ, Outcome}
use gtksudoku.Cell.{KeyVal}
use gtksudoku.Board.{Board}
use gtksudoku.Edit.{CellEvent, Response}
use gtksudoku.Gtk.{Call}
use gtksudoku.ShowText.{Metrics, show_text}
use gtksudoku.Interp.Callbacks.{interp_set_val, interp_edit}

-- Over the board of the window.
pub record Gui : Type 0 where
  pub set_val : Board → ℤ → ℤ → ℤ → ℤ → Outcome Board
  pub edit : Option (List ℕ) → Outcome (Option (List ℕ))
  pub show : List ℕ → List Call

-- `interp_show`: the text of the dialog is freed when it is closed, so it is not used again.
unfoldable pub interp_show : List ℕ → (ℕ → ℕ) → Metrics → List ℕ → List Call
interp_show package_name pixels metrics text = show_text package_name pixels metrics text

-- The user's work in an edit dialog, and its surroundings.
pub record Work : Type 0 where
  pub before : ℕ → ℕ → Bool
  pub during : ℕ → ℕ → Bool
  pub bindings : KeyVal → Bool
  pub malloc_ok : Bool
  pub events : List CellEvent
  pub response : Response

unfoldable pub gui : (ℕ → ℕ → Bool) → Work → List ℕ → (ℕ → ℕ) → Metrics → Gui
unfolding interp_show
gui window work package_name pixels metrics = record {
  set_val = interp_set_val window;
  edit = interp_edit work.before work.during work.bindings work.malloc_ok work.events work.response;
  show = interp_show package_name pixels metrics;
}
