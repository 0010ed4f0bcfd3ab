-- ===== src/Tests/Dialogs.antt =====
-- Runs of the edit dialog.
use gtksudoku.Prelude.{ℕ, ◌+◌, ◌*◌, ◌<◌, ◌≡◌, refl, Bool, true, false, arith}
use gtksudoku.Prelude.{none, some, List, [], ◌∷◌, get_or, get_elem?, done, exited}
use gtksudoku.Prelude.{every_below, every_below_lem}
use gtksudoku.Constants.{digits}
use gtksudoku.Tools.Files.{codes}
use gtksudoku.BoardText.{isboardchar}
use gtksudoku.Cell
use gtksudoku.Cell.{KeyVal, key_press}
use gtksudoku.Tests.Boards.{shown, no_bindings}
use gtksudoku.Edit.{CellEvent, apply, cancel, closed, sudoku_edit_dialog}
use gtksudoku.Edit.Spec.{start, work}
use gtksudoku.Edit.Session.{InBoard}
use gtksudoku.Edit.Dialog.{IsPlain, edit_dialog_apply, edit_dialog_other, edit_dialog_unchanged}

abbrev pub hidden : ℕ → ℕ → Bool
hidden _ _ = false

abbrev pub puzzle : List ℕ
puzzle = codes "53..7....6..195....98....6.8...6...34..8.3..17...2...6.6....28....419..5....8..79"

-- Two keys, a click and a key that no cell takes.
abbrev pub keys : List CellEvent
keys =
    (0, 2, key_press Cell.key_4)
    ∷ (8, 8, Cell.button_press)
    ∷ (8, 8, key_press Cell.period)
    ∷ (1, 1, key_press (Cell.other 65))
    ∷ []

pub keys-InBoard : InBoard keys
keys-InBoard =
    let first : 0 < digits = omega arith in
    let third : 2 < digits = omega arith in
    let second : 1 < digits = omega arith in
    let last : 8 < digits = omega arith in
    (first, third, (last, last, (last, last, (second, second, tt))))

puzzle_chars : every_below (λ k. isboardchar (get_or puzzle k 0)) 81 ≡ true
unfolding every_below isboardchar
puzzle_chars = refl

puzzle-IsPlain : IsPlain puzzle
puzzle-IsPlain = record { size = refl; chars = λ k lt. every_below_lem _ 81 puzzle_chars k lt }

edit_dialog_apply_example :
    (out : List ℕ) × (sudoku_edit_dialog hidden shown no_bindings true keys apply (some puzzle)
      ≡ done (some out))
    × IsPlain out
    × ((i j : ℕ)
        → i < digits
        → j < digits
        → get_elem? out (digits * i + j) ≡ some (work (start (some puzzle)) keys i j))
edit_dialog_apply_example =
    edit_dialog_apply hidden shown no_bindings (some puzzle) keys keys-InBoard

edit_dialog_other_example :
    (sudoku_edit_dialog hidden shown no_bindings true keys cancel (some puzzle) ≡ done none)
    × (sudoku_edit_dialog hidden shown no_bindings true keys closed (some puzzle) ≡ done none)
    × (sudoku_edit_dialog hidden shown no_bindings false keys apply (some puzzle) ≡ exited 1)
edit_dialog_other_example =
    edit_dialog_other hidden shown no_bindings (some puzzle) keys keys-InBoard true

edit_dialog_unchanged_example :
    sudoku_edit_dialog hidden shown no_bindings true [] apply (some puzzle) ≡ done (some puzzle)
edit_dialog_unchanged_example = edit_dialog_unchanged hidden shown no_bindings puzzle puzzle-IsPlain
