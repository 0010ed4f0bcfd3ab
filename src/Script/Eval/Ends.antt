-- ===== src/Script/Eval/Ends.antt =====
-- `eval` comes to an end, whatever the user enters.
use gtksudoku.Prelude.{ℕ, ◌+◌, ◌<◌, ◌≢◌, Bool, arith, Option, none, some}
use gtksudoku.Prelude.{List, [], ◌∷◌, ◌==◌, length, Bool-cases, Option-cases, inl, inr}
use gtksudoku.Script.Board.{
  Place, Board, mk_board, put, determine, Result, ok, raised, out_of_fuel, then_with,
}
use gtksudoku.Script.Cell.{singleton}
use gtksudoku.Script.Board.Count.{undetermined, undetermined-bound, left}
use gtksudoku.Script.Board.Progress.{Moves, determine-Moves}
use gtksudoku.Script.Solution.{InTable, All}
use gtksudoku.Script.Load.{digits2, digit_translator, strip_string, table, fill}
use gtksudoku.Script.Load
use gtksudoku.Script.Load.Laws.{table-InTable}
use gtksudoku.Script.Strategies.Basics.{Moving}
use gtksudoku.Script.Session.{
  Session, push, Reply, said, failed, nothing_to_save, stuck, load, reading, tostring, print_all,
}
use gtksudoku.Script.Commands.{Command, rule_of, nargs, other_op}
use gtksudoku.Script.Commands.Facts.{rule_of-Held, Moving-Facts}
use gtksudoku.Script.Pairs.Laws.{InDigits}
use gtksudoku.Script.Eval.{
  Arg, Help, error_text, edited, do_edit, printed, answer, after_rule, run_command, eval,
}
use gtksudoku.Script.Eval.Cases.{eval-cases, on_rule}

-- A call of the script that comes to an end.
abbrev pub Finished : Reply → Type 0
Finished (said message st calls shown) = Unit
Finished (failed w st) = Unit
Finished (nothing_to_save st) = Unit
Finished stuck = ⊥

Finished-ne-stuck : (r : Reply) → Finished r → r ≢ stuck
Finished-ne-stuck (said message st calls shown) h e = cc
Finished-ne-stuck (failed w st) h e = cc
Finished-ne-stuck (nothing_to_save st) h e = cc
Finished-ne-stuck stuck h e = h

-- A result that is not out of fuel.
abbrev Over : Result → Type 0
Over (ok b e) = Unit
Over (raised w b) = Unit
Over out_of_fuel = ⊥

Moves-Over : (m n : ℕ) (r : Result) → Moves m n r → Over r
Moves-Over m n (ok b e) h = tt
Moves-Over m n (raised w b) h = tt
Moves-Over m n out_of_fuel h = h

then_with-Over :
    (r : Result) (k : Board → Bool → Result)
    → Over r
    → ((b : Board) (e : Bool) → Over (k b e))
    → Over (then_with r k)
then_with-Over (ok b e) k h next = next b e
then_with-Over (raised w b) k h next = tt
then_with-Over out_of_fuel k h next = absurd h

fill-Over : (ps : List Place) (cs : List ℕ) (b : Board) → All InTable ps → Over (fill ps cs b)
unfolding fill
fill-Over [] cs b inside = tt
fill-Over (p ∷ ps) [] b inside = tt
fill-Over (p ∷ ps) (c ∷ cs) b (here, inside) = elim (Option-cases (digit_translator c)) [
  | inl e ↦ rw (fill, e) (fill-Over ps cs b inside)
  | inr (d, e) ↦
      let b' = put b p (singleton d (b p)).0 in
      let run = determine-Moves (digits2 + 1) p d b' here (omega (arith, undetermined-bound b')) in
      rw (fill, e)
        (then_with-Over (determine (digits2 + 1) p d b') (λ b2 e. fill ps cs b2)
          (Moves-Over (undetermined b') (left b') (determine (digits2 + 1) p d b') run)
          (λ b2 e. fill-Over ps cs b2 inside))
]

board-Over : (s : List ℕ) → Over (Load.board s)
unfolding Load.board
board-Over s = elim (Bool-cases (length (strip_string s) == digits2)) [
  | inl e ↦ rw (Load.board, e) (fill-Over table (strip_string s) mk_board table-InTable)
  | inr e ↦ rw (Load.board, e) tt
]

reading-Finished :
    (k : Board → Reply) (st : Session) (r : Result)
    → ((b : Board) → Finished (k b))
    → Over r
    → Finished (reading k st r)
reading-Finished k st (ok b e) h over = h b
reading-Finished k st (raised w b) h over = tt
reading-Finished k st out_of_fuel h over = over

printed-Finished : (st : Session) (message : List ℕ) → Finished (printed st message)
unfolding printed
printed-Finished st message = elim (Option-cases st.it) [
  | inl e ↦ rw (printed, e) tt
  | inr (b, e) ↦ rw (printed, e) tt
]

after_rule-Finished :
    (r : Result) (m : Option (List ℕ)) (st : Session) → Over r → Finished (after_rule (r, m) st)
unfolding after_rule
after_rule-Finished (ok b e) m st over = printed-Finished (record st { it = some b }) (answer e m)
after_rule-Finished (raised w b) m st over =
    printed-Finished (record st { it = some b }) (error_text w)
after_rule-Finished out_of_fuel m st over = over

run_command-Finished :
    (x : Command) (a : ℕ → ℕ) (b : Board) (st : Session)
    → ((i : ℕ) → i < nargs x → InDigits (a i))
    → Finished (run_command x a b st)
unfolding run_command
run_command-Finished x a b st h =
    on_rule Finished Moving (rule_of x a) b st (other_op x b st)
      (rule_of-Held Moving Moving-Facts a x h)
      (λ rule moving.
        after_rule-Finished (rule b).0 (rule b).1 st
          (Moves-Over digits2 (left b) (rule b).0 (moving b)))
      (printed-Finished (other_op x b st).0 (answer (other_op x b st).1 (other_op x b st).2))

edited-Finished : (s : Option (List ℕ)) (st : Session) → Finished (edited s st)
unfolding edited
edited-Finished none st = tt
edited-Finished (some s) st =
    reading-Finished
      (λ b. said none (record (push st) { it = some b }) (print_all st.details b) none) (push st)
      (Load.board s) (λ b. tt) (board-Over s)

do_edit-Finished :
    (edit : Option (List ℕ) → Option (List ℕ)) (st : Session) → Finished (do_edit edit st)
unfolding do_edit
do_edit-Finished edit st = elim (Option-cases st.it) [
  | inl e ↦ rw (do_edit, e) (edited-Finished (edit none) st)
  | inr (b, e) ↦ elim (Option-cases (tostring b)) [
    | inl f ↦ rw (do_edit, e, f) tt
    | inr (s, f) ↦ rw (do_edit, e, f) (edited-Finished (edit (some s)) st)
  ]
]

-- Whatever the user enters, in whatever state, `eval` comes to an end: with a message or nil, or with
-- an error. So does `load` of any text.
pub eval-ends :
    (help : Help) (edit : Option (List ℕ) → Option (List ℕ)) (name : Arg) (args : List Arg)
    (st : Session) (s : List ℕ)
    → (eval help edit name args st ≢ stuck) × (load s st ≢ stuck)
unfolding load
eval-ends help edit name args st s = (
  Finished-ne-stuck (eval help edit name args st) (
      eval-cases Finished help edit st name args (λ m shown. tt) (do_edit-Finished edit st)
        (λ no_board. tt) (λ x a b it h. run_command-Finished x a b (push st) h)),
  Finished-ne-stuck (load s st) (
      reading-Finished
        (λ b. said none (record st { it = some b; history = [] }) (print_all st.details b) none) st
        (Load.board s) (λ b. tt) (board-Over s)),
)
