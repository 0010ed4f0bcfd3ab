-- ===== src/Edit/Contract.antt =====
-- src/sudokuedit.h: what the header promises of the edit dialog.
use gtksudoku.Prelude.{ℕ, ◌+◌, ◌*◌, ◌<◌, ◌≡◌, Bool, true, Option, none, some, List, get_elem?}
use gtksudoku.Prelude.{Outcome, done}
use gtksudoku.Constants.{digits}
use gtksudoku.Cell.{KeyVal}
use gtksudoku.Edit.{Pointer, CellEvent, Response, apply, cancel, closed, sudoku_edit_dialog}
use gtksudoku.Edit.Spec.{start, work}
use gtksudoku.Edit.Session.{InBoard}
use gtksudoku.Edit.Dialog.{IsPlain, edit_dialog_apply, edit_dialog_other}

-- A dialog, for what the user does in it and the string that it is given: accepted, it returns a
-- string of 81 cell descriptors that the edits leave of the board that it started with; otherwise
-- the null string.
pub record EditContract (dialog : List CellEvent → Response → Pointer → Outcome (Option (List ℕ)))
    : Type 0 where
  pub accepted :
      (events : List CellEvent) (board : Pointer)
      → InBoard events
      → (out : List ℕ) × (dialog events apply board ≡ done (some out))
        × IsPlain out
        × ((i j : ℕ)
            → i < digits
            → j < digits
            → get_elem? out (digits * i + j) ≡ some (work (start board) events i j))
  pub cancelled :
      (events : List CellEvent) (board : Pointer)
      → InBoard events
      → (dialog events cancel board ≡ done none) × (dialog events closed board ≡ done none)

-- The dialog of src/sudokuedit.c keeps the promise where `malloc` succeeds, whichever cells have a
-- window and whatever the key bindings answer.
pub sudoku_edit_dialog-EditContract :
    (before during : ℕ → ℕ → Bool) (bindings : KeyVal → Bool)
    → EditContract (sudoku_edit_dialog before during bindings true)
sudoku_edit_dialog-EditContract before during bindings = record {
  accepted = λ events board ok. edit_dialog_apply before during bindings board events ok;
  cancelled = λ events board ok.
      let (c, x, m) = edit_dialog_other before during bindings board events ok true in (c, x);
}
