-- ===== src/Edit/Dialog.antt =====
-- The edit dialog as a whole: `sudoku_edit_dialog` does what Edit/Spec says.
use gtksudoku.Prelude.{ℕ, ◌+◌, ◌*◌, ◌/◌, ◌%◌, ◌<◌, ◌≡◌, sym, ap, ◌∙◌, Bool, true, false, arith}
use gtksudoku.Prelude.{none, some, List, [], length, get_or, get_elem?, get_elem?-get_or}
use gtksudoku.Prelude.{list_ext, count_if-all, done, exited}
use gtksudoku.Constants.{digits}
use gtksudoku.BoardText.{isboardchar, boardlen}
use gtksudoku.BoardText.Laws.{boardlen_lem}
use gtksudoku.Cell.{KeyVal}
use gtksudoku.Edit.{Pointer, CellEvent, apply, cancel, closed, sudoku_edit_dialog}
use gtksudoku.Edit.Spec.{Chars, start, work}
use gtksudoku.Edit.Loading.{dialog_set-Shows}
use gtksudoku.Edit.Session.{InBoard, run_events-Shows}
use gtksudoku.Edit.Reading.{read_board-Shows}

-- A string of exactly 81 cell descriptors and nothing else.
pub record IsPlain (s : List ℕ) : Type 0 where
  pub size : length s ≡ digits * digits
  pub chars : (k : ℕ) → k < digits * digits → isboardchar (get_or s k 0) ≡ true

pub boardlen-IsPlain : (s : List ℕ) → IsPlain s → boardlen (some s) ≡ digits * digits
boardlen-IsPlain s h =
    let counted = count_if-all isboardchar s 0 (λ i lt. h.chars i (omega (arith, h.size))) in
    boardlen_lem s (omega (arith, h.size)) ∙ counted ∙ h.size

-- A place of a string of 81 characters, as a row and a column.
at_place :
    (out : List ℕ) (k : ℕ) → get_elem? out (digits * (k / digits) + k % digits) ≡ get_elem? out k
at_place out k = ap (get_elem? out) (omega arith)

-- A string read off from characters at places is plain, if they are cell descriptors.
listed-IsPlain :
    (out : List ℕ) (f : Chars)
    → length out ≡ digits * digits
    → ((i j : ℕ) → i < digits → j < digits → get_elem? out (digits * i + j) ≡ some (f i j))
    → ((i j : ℕ) → i < digits → j < digits → isboardchar (f i j) ≡ true)
    → IsPlain out
listed-IsPlain out f size listed chars = record {
  size = size;
  chars = λ k lt.
      let i = k / digits in
      let j = k % digits in
      let valid = chars i j (omega arith) (omega arith) in
      let read : get_or out k 0 ≡ f i j = ground (
        arith,
        at_place out k,
        get_elem?-get_or out k 0,
        size,
        listed i j (omega arith) (omega arith),
      ) in
      rw read valid;
}

module _ (before during : ℕ → ℕ → Bool) (bindings : KeyVal → Bool) (board : Pointer)
    (events : List CellEvent) (ok : InBoard events) where
  -- With Apply, where `malloc` succeeds and the events are at places of the board, the dialog
  -- never faults, whatever text it is given, and returns 81 cell descriptors: at 9 * row + col the
  -- one that the user's work leaves at that place of the starting board.
  pub edit_dialog_apply :
      (out : List ℕ) × (sudoku_edit_dialog before during bindings true events apply board
        ≡ done (some out))
      × IsPlain out
      × ((i j : ℕ)
          → i < digits
          → j < digits
          → get_elem? out (digits * i + j) ≡ some (work (start board) events i j))
  unfolding sudoku_edit_dialog
  edit_dialog_apply =
      let (grid, loaded, shown) = dialog_set-Shows before board in
      let (grid', worked, shown') = run_events-Shows during bindings events grid shown ok in
      let (out, read, size, chars) = read_board-Shows grid' shown' in
      (
        out,
        rw (loaded, worked, read),
        listed-IsPlain out (work (start board) events) size chars shown'.chars,
        chars,
      )

  -- If the events are at places of the board, any response but Apply returns the null pointer,
  -- whatever the user did; and with Apply, where `malloc` fails, the program leaves with status 1.
  pub edit_dialog_other :
      (malloc_ok : Bool)
      → (sudoku_edit_dialog before during bindings malloc_ok events cancel board ≡ done none)
        × (sudoku_edit_dialog before during bindings malloc_ok events closed board ≡ done none)
        × (sudoku_edit_dialog before during bindings false events apply board ≡ exited 1)
  unfolding sudoku_edit_dialog
  edit_dialog_other malloc_ok =
      let (grid, loaded, shown) = dialog_set-Shows before board in
      let (grid', worked, shown') = run_events-Shows during bindings events grid shown ok in
      (rw (loaded, worked), rw (loaded, worked), rw (loaded, worked))

start_plain :
    (s : List ℕ)
    → IsPlain s
    → (k : ℕ) → k < digits * digits
    → start (some s) (k / digits) (k % digits) ≡ get_or s k 0
unfolding start
start_plain s h k lt =
    let place : digits * (k / digits) + k % digits ≡ k = omega arith in
    rw (boardlen-IsPlain s h, place, h.chars k lt)

-- Where `malloc` succeeds, opening the dialog on a plain board and applying at once gives the
-- board back.
pub edit_dialog_unchanged :
    (before during : ℕ → ℕ → Bool) (bindings : KeyVal → Bool) (s : List ℕ)
    → IsPlain s
    → sudoku_edit_dialog before during bindings true [] apply (some s) ≡ done (some s)
unfolding work
edit_dialog_unchanged before during bindings s h =
    let (out, returns, plain, listed) = edit_dialog_apply before during bindings (some s) [] tt in
    let same : out ≡ s = list_ext out s (plain.size ∙ sym h.size) (λ k lt.
      sym (at_place out k)
      ∙ listed (k / digits) (k % digits) (omega (arith, plain.size)) (omega arith)
      ∙ ap some (start_plain s h k (omega (arith, plain.size)))
      ∙ sym (get_elem?-get_or s k 0 (omega (arith, plain.size, h.size)))) in
    returns ∙ ap (λ o. done (some o)) same
