-- ===== src/Tests/Sessions.antt =====
-- Runs of the script's commands.
use mathlib.Core.Path.{subst}
use mathlib.Core.Option.{some-injective}
use gtksudoku.Prelude.{
  ◌+◌, ℕ, ◌≡◌, ◌≢◌, refl, true, false, Option, none, some, List, [], ◌∷◌, pos, length, done,
}
use gtksudoku.Prelude.{◌<◌, count_if}
use gtksudoku.Script.Board.{mark}
use gtksudoku.Script.Solution.{Keeps}
use gtksudoku.Script.Load.Hints.{Only}
use gtksudoku.Script.Session.Window.{place_of}
use gtksudoku.Tools.Files.{codes}
use gtksudoku.Cell.{and_all}
use gtksudoku.Board
use gtksudoku.Board.Laws.{value_at}
use gtksudoku.Board.Writes.{set_vals}
use gtksudoku.Script.Cell.{mk_cell, singleton, singleton_from, unknowns, first, print_item}
use gtksudoku.Script.Board as ScriptBoard
use gtksudoku.Script.Board.{Place, mk_board, put, determine}
use gtksudoku.Script.Board.Count.{left}
use gtksudoku.Script.Board.Determine.{Good, digit-range}
use gtksudoku.Script.Board.Progress.{Moves}
use gtksudoku.Prelude.{Bool, ◌==◌, ==→≡, ap}
use gtksudoku.Script.Commands.Solved.{Shown, Played-solved}
use gtksudoku.Script.Solution.{is_solution, for_places_lem, for_places, InTable}
use gtksudoku.Script.Load
use gtksudoku.Script.Board.{Result, ok, raised, out_of_fuel}
use gtksudoku.Script.Load.{digits2, strip_string, is_item, table, flatten, digit_translator}
use gtksudoku.Script.Load.Laws.{fits, mk_board-Keeps}
use gtksudoku.Script.Strategies.{propagate_all_singletons, simp_rules, all_rules, solve}
use gtksudoku.Script.Strategies.Laws.{strategies-Moving}
use gtksudoku.Script.Strategies.Soundness.{strategies-Keeping}
use gtksudoku.Script.Session.{
  push, show_cell, same_board, same_cell, same_marks, print_all, said, stuck, load,
}
use gtksudoku.Script.Session.Window.{call_all, print_all-shows}
use gtksudoku.Script.Commands.Played.{read, Played-legal}
use gtksudoku.Script.Eval.{number, text, Help, printed, eval, save}
use gtksudoku.Script.Eval.Ends.{eval-ends}
use gtksudoku.Script.Eval.Keeping.{Kept, Honest, eval-Kept}
use gtksudoku.Script.Eval.Saving.{load-save}
use gtksudoku.Script.Eval.Undo.{session, top_of, below, fresh, enter, back_undoes, swap_swap}
use gtksudoku.Tests.Rules.{solution, solution_ok, hints}

abbrev no_help : Help
no_help = record { intro = []; topic = λ t. none }

-- The user always enters the hints.
abbrev enter_hints : Option (List ℕ) → Option (List ℕ)
enter_hints board = some hints

enter_hints-Honest : Honest solution solution_ok enter_hints
unfolding strip_string is_item table flatten fits digit_translator ScriptBoard.row
enter_hints-Honest before s e =
    subst (λ t. (length (strip_string t) ≡ digits2) × (fits solution table (strip_string t) ≡ true))
      (some-injective hints s e) (refl, refl)

-- The empty board, of which one cell is changed.
abbrev changed : ScriptBoard.Board
changed = put mk_board (1, 2, 3, 1) (singleton 5 (mk_board (1, 2, 3, 1))).0

abbrev changed_again : ScriptBoard.Board
changed_again = put mk_board (3, 2, 3, 1) (singleton 7 (mk_board (3, 2, 3, 1))).0

strategies-Moving_example :
    Moves digits2 (left changed) (propagate_all_singletons changed)
    × Moves digits2 (left changed) (simp_rules changed)
    × Moves digits2 (left changed) (all_rules changed).0
    × Moves digits2 (left changed) (solve changed)
strategies-Moving_example = strategies-Moving changed

strategies-Keeping_example :
    Good solution digits2 (propagate_all_singletons mk_board)
    × Good solution digits2 (simp_rules mk_board)
    × Good solution digits2 (all_rules mk_board).0
    × Good solution digits2 (solve mk_board)
strategies-Keeping_example =
    strategies-Keeping solution solution_ok mk_board (mk_board-Keeps solution solution_ok)

eval-ends_example :
    (eval no_help enter_hints
        (text (codes "d"))
        (number (pos 5) ∷ number (pos 1) ∷ number (pos 9) ∷ [])
        (session changed (mk_board ∷ []) true)
      ≢ stuck)
    × (load (codes "12345") (session changed (mk_board ∷ []) true) ≢ stuck)
eval-ends_example =
    eval-ends no_help enter_hints (text (codes "d"))
      (number (pos 5) ∷ number (pos 1) ∷ number (pos 9) ∷ []) (session changed (mk_board ∷ []) true)
      (codes "12345")

eval-Kept_example :
    Kept solution
      (eval no_help enter_hints (text (codes "solve")) [] (session mk_board (mk_board ∷ []) true))
eval-Kept_example =
    eval-Kept solution solution_ok no_help enter_hints (text (codes "solve")) []
      (session mk_board (mk_board ∷ []) true) enter_hints-Honest
      (mk_board-Keeps solution solution_ok, (mk_board-Keeps solution solution_ok, tt))

back_undoes_example :
    (same_board mk_board (top_of mk_board []) ≡ true)
    × (enter no_help enter_hints
          (codes "back")
          (record (push (session mk_board [] true)) { it = some changed })
        ≡ printed (session (top_of mk_board []) (below mk_board []) true) (codes "yes"))
unfolding same_board same_cell same_marks put singleton singleton_from mk_cell mk_board top_of
    ScriptBoard.same
back_undoes_example = back_undoes no_help enter_hints mk_board changed [] true refl

swap_swap_example :
    (enter no_help enter_hints (codes "swap") (session changed (changed_again ∷ mk_board ∷ []) true)
      ≡ printed (session changed_again (changed ∷ mk_board ∷ []) true) (codes "yes"))
    × (enter no_help enter_hints
          (codes "swap")
          (session changed_again (changed ∷ mk_board ∷ []) true)
        ≡ printed (session changed (changed_again ∷ mk_board ∷ []) true) (codes "yes"))
unfolding same_board same_cell same_marks put singleton singleton_from mk_cell mk_board fresh
    ScriptBoard.same
swap_swap_example =
    swap_swap no_help enter_hints changed changed_again (mk_board ∷ []) true refl refl refl refl

print_all-shows_example :
    (w w' : Board.Board) × (set_vals (λ i j. true) (Board.new true) [] ≡ done w)
    × (call_all (λ i j. true) w (print_all true changed) ≡ done (some w'))
    × ((i j : ℕ)
        → i < 9
        → j < 9
        → value_at w'.rows i j ≡ some (and_all (print_item true (changed (place_of i j))).0))
print_all-shows_example = print_all-shows (λ i j. true) true [] true changed

-- One hint, in the corner.
abbrev one_hint : List ℕ
one_hint = codes "5................................................................................"

abbrev board_of : Result → ScriptBoard.Board
board_of (ok b e) = b
board_of (raised w b) = b
board_of out_of_fuel = mk_board

one_hint_read : Load.board one_hint ≡ ok (board_of (Load.board one_hint)) false
unfolding Load.board is_item ScriptBoard.same singleton_from mk_cell ScriptBoard.clear
one_hint_read = refl

one_hint_shown : show_cell (board_of (Load.board one_hint) (1, 1, 1, 1)) ≡ some (48 + 5)
unfolding show_cell Load.board is_item ScriptBoard.same singleton_from mk_cell ScriptBoard.clear
    unknowns first
one_hint_shown = refl

Played-legal_example : show_cell (board_of (Load.board one_hint) (1, 1, 2, 3)) ≢ some (48 + 5)
unfolding ScriptBoard.same ScriptBoard.square
Played-legal_example =
    Played-legal (board_of (Load.board one_hint)) (read one_hint one_hint_read) (1, 1, 1, 1)
      (1, 1, 2, 3) 5 refl one_hint_shown

-- A board on which all is determined.
abbrev full : List ℕ
full = codes "123456789456789123789123456234567891567891234891234567345678912678912345912345678"

full_read : Load.board full ≡ ok (board_of (Load.board full)) false
unfolding Load.board is_item ScriptBoard.same singleton_from mk_cell ScriptBoard.clear unknowns
    first
full_read = refl

abbrev is_shown : Option ℕ → ℕ → Bool
is_shown none n = false
is_shown (some c) n = c == 48 + n

full_test :
    for_places (λ p. is_shown (show_cell (board_of (Load.board full) p)) (solution p)) ≡ true
unfolding show_cell Load.board is_item ScriptBoard.same singleton_from mk_cell ScriptBoard.clear
    unknowns first
full_test = refl

is_shown→≡ : (o : Option ℕ) (n : ℕ) → is_shown o n ≡ true → o ≡ some (48 + n)
is_shown→≡ none n h = absurd cc
is_shown→≡ (some c) n h = ap some (==→≡ c (48 + n) h)

full-Shown : (p : Place) → InTable p → Shown (board_of (Load.board full)) solution p
full-Shown p inside = (
  digit-range solution solution_ok p inside,
  is_shown→≡ (show_cell (board_of (Load.board full) p)) (solution p) (
      for_places_lem (λ p. is_shown (show_cell (board_of (Load.board full) p)) (solution p)) p
        full_test inside),
)

Played-solved_example : is_solution solution ≡ true
Played-solved_example =
    Played-solved (board_of (Load.board full)) (read full full_read) solution full-Shown

-- The board that is read from it has the digits of the solution.
full_kept : for_places (λ p. mark (board_of (Load.board full) p) (solution p)) ≡ true
unfolding mark Load.board is_item ScriptBoard.same singleton_from mk_cell ScriptBoard.clear unknowns
    first
full_kept = refl

full-Keeps : Keeps solution (board_of (Load.board full))
full-Keeps p inside =
    for_places_lem (λ p. mark (board_of (Load.board full) p) (solution p)) p full_kept inside

load-save_example :
    (s : List ℕ) × (b' : ScriptBoard.Board) × (save (session (board_of (Load.board full)) [] false)
      ≡ said (some s) (session (board_of (Load.board full)) [] false) [] none)
    × (load s (session changed (mk_board ∷ []) true)
        ≡ said none (session b' [] true) (print_all true b') none)
    × Keeps solution b'
    × ((p : Place)
        → InTable p
        → (board_of (Load.board full) p).determined ≡ true
        → count_if (λ m. m) (board_of (Load.board full) p).marks ≡ 1
        → Only p (solution p) b')
load-save_example =
    load-save solution solution_ok (board_of (Load.board full))
      (session (board_of (Load.board full)) [] false) (session changed (mk_board ∷ []) true) refl
      full-Keeps
