-- ===== src/Script/Eval/Saving.antt =====
-- A board that src/sudoku.lua saves, and loads again.
use mathlib.Core.Path.{subst}
use gtksudoku.Prelude.{ℕ, ◌≡◌, refl, ap, ◌∙◌, Bool, true, none, some}
use gtksudoku.Prelude.{List, []}
use gtksudoku.Prelude.{count_if}
use gtksudoku.Script.Board.Clean.{OnOk}
use gtksudoku.Script.Board.Determine.{digit-range}
use gtksudoku.Script.Solution.{InTable}
use gtksudoku.Script.Session.Texts.{show_cell-digit}
use gtksudoku.Script.Load.Places.{has-table}
use gtksudoku.Script.Load.Hints.{Only, met-Only, Good-ok}
use gtksudoku.Script.Board.{Place, Board, ok}
use gtksudoku.Script.Solution.{Keeps, is_solution}
use gtksudoku.Script.Load
use gtksudoku.Script.Load.{digits2, strip_string, table}
use gtksudoku.Script.Load.Laws.{board-Good}
use gtksudoku.Script.Session.{Session, print_all, said, reading, load}
use gtksudoku.Script.Session.Texts.{show_lem}
use gtksudoku.Script.Eval.{save, saved}

module _ (sol : Place → ℕ) (solved : is_solution sol ≡ true) where
  -- What `load` does with a text that is read.
  load-read :
      (s : List ℕ) (st : Session) (b : Board) (e : Bool)
      → Load.board s ≡ ok b e
      → load s st
        ≡ said none (record st { it = some b; history = [] }) (print_all st.details b) none
  unfolding load
  load-read s st b e read =
      ap
        (reading
          (λ b. said none (record st { it = some b; history = [] }) (print_all st.details b) none)
          st)
        read

  -- If the digits of a solution are left on the current board, `save` returns a text, and `load` of
  -- the text returns in any session, without an error, and makes a board current that it prints,
  -- with an empty history. On that board the digits of the solution are left, and wherever the
  -- saved board was determined with one digit left, no other digit.
  pub load-save :
      (b : Board) (st other : Session)
      → st.it ≡ some b
      → Keeps sol b
      → (s : List ℕ) × (b' : Board) × (save st ≡ said (some s) st [] none)
        × (load s other
            ≡ said none
                (record other { it = some b'; history = [] })
                (print_all other.details b')
                none)
        × Keeps sol b'
        × ((p : Place)
            → InTable p
            → (b p).determined ≡ true
            → count_if (λ m. m) (b p).marks ≡ 1
            → Only p (sol p) b')
  unfolding save saved
  load-save b st other it keeps =
      let (s, shown, long, fit, placed) = show_lem sol solved b keeps in
      let found : saved (some b) st ≡ said (some s) st [] none = rw (saved, shown) refl in
      let (b', e, read, keeps') =
        Good-ok sol solved digits2 (Load.board s) (board-Good sol solved s long fit) in
      (
        s,
        b',
        ap (λ o. saved o st) it ∙ found,
        load-read s other b' e read,
        keeps',
        λ p inside determined one. subst (OnOk (Only p (sol p))) read (
            met-Only s p (sol p) long (digit-range sol solved p inside) (
              placed p (has-table p inside)
              ∙ show_cell-digit sol solved b keeps p inside determined one)),
      )
