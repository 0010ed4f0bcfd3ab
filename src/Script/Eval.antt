-- ===== src/Script/Eval.antt =====
-- `eval` and `save` of src/sudoku.lua, and the editing of boards. The table of help texts, and what
-- the user makes of a board in the dialog that `edit` opens, are arguments. Numbers among the
-- arguments of a command are integers, as src/interp.c pushes them.
pub mod Cases
pub mod Ends
pub mod Keeping
pub mod Saving
pub mod Undo
use gtksudoku.Prelude.{
  ℕ, zero, suc, ◌+◌, ◌/◌, ◌%◌, Bool, true, false, not, ◌&&◌, ◌||◌, Option, none, some,
}
use gtksudoku.Prelude.{List, [], ◌∷◌, ◌++◌, ◌==◌, leb, if◌then◌else◌, length, get_or, same_text}
use gtksudoku.Prelude.{ℤ, pos, negsuc}
use gtksudoku.Constants.{digits}
use gtksudoku.Tools.Files.{codes}
use gtksudoku.Script.Board.{Board, Result, Error, board_inconsistent, bad_index, bad_input}
use gtksudoku.Script.Board.{ok, raised, out_of_fuel}
use gtksudoku.Script.Load
use gtksudoku.Script.Load.{strip_string}
use gtksudoku.Script.Session.{
  Session, push, tostring, show, print_all, print_blank_board, Reply, said, failed, nothing_to_save,
  stuck, reading,
}
use gtksudoku.Script.Commands.{Command, commands, name_of, help_of, nargs, rule_of, other_op}

-- A number in a text. Dividing by ten ends well before the fuel.
unfoldable pub decimal_from : ℕ → ℕ → List ℕ → List ℕ
decimal_from zero n acc = acc
decimal_from (suc fuel) n acc =
    let acc' = (48 + n % 10) ∷ acc in
    let rest = decimal_from fuel (n / 10) acc' in if n / 10 == 0 then acc' else rest

abbrev pub decimal : ℕ → List ℕ
decimal n = decimal_from (n + 1) n []

-- What the errors say.
unfoldable pub error_text : Error → List ℕ
unfolding decimal_from strip_string
error_text board_inconsistent = codes "Board inconsistent"
error_text (bad_index n) = codes "Bad index number " ++ decimal n
error_text (bad_input s) =
    codes "bad input: expected 81 items but found "
    ++ (decimal (length (strip_string s)) ++ (codes " in \n" ++ s))

pub data Arg : Type 0 where
  number : ℤ → Arg
  text : List ℕ → Arg

-- An argument in a text.
unfoldable pub text_of : Arg → List ℕ
unfolding decimal_from
text_of (number (pos n)) = decimal n
text_of (number (negsuc n)) = b'-' ∷ decimal (n + 1)
text_of (text t) = t

-- `cmds[name]`
unfoldable pub find_in : List Command → List ℕ → Option Command
unfolding name_of
find_in [] name = none
find_in (x ∷ xs) name =
    let rest = find_in xs name in if same_text name (name_of x) then some x else rest

unfoldable pub find_command : Arg → Option Command
unfolding find_in
find_command (text t) = find_in commands t
find_command (number n) = none

-- The arguments of a command, if they are numbers from 1 to 9.
unfoldable pub numbers : List Arg → Option (List ℕ)
numbers [] = some []
numbers (number (pos n) ∷ rest) =
    if leb 1 n && leb n digits
    then (elim (numbers rest) [ none ↦ none | some ns ↦ some (n ∷ ns) ])
    else none
numbers (number (negsuc n) ∷ rest) = none
numbers (text t ∷ rest) = none

-- Whether the first argument is "help".
unfoldable pub asks_help : List Arg → Bool
asks_help (text t ∷ rest) = same_text t (codes "help")
asks_help _ = false

-- `intro_help`, and the table `topics`.
pub record Help : Type 0 where
  pub intro : List ℕ
  pub topic : List ℕ → Option (List ℕ)

unfoldable pub do_help : Help → Option (List ℕ) → Session → Reply
do_help help none st = said none st [] (some help.intro)
do_help help (some topic) st = elim (help.topic topic) [
  | none ↦ said (some (codes "no help entry for " ++ topic)) st [] none
  | some s ↦ said none st [] (some s)
]

-- `edit(s)`, and what is done with its answer.
unfoldable pub edited : Option (List ℕ) → Session → Reply
unfolding push Load.board print_all
edited none st = said (some (codes "edit canceled")) st [] none
edited (some s) st =
    let st1 = push st in
    reading (λ b. said none (record st1 { it = some b }) (print_all st.details b) none) st1
      (Load.board s)

unfoldable pub do_edit : (Option (List ℕ) → Option (List ℕ)) → Session → Reply
unfolding edited tostring
do_edit edit st = elim st.it [
  | none ↦ edited (edit none) st
  | some b ↦ elim (tostring b) [
    | none ↦ failed board_inconsistent st
    | some s ↦ edited (edit (some s)) st
  ]
]

-- The end of `eval`: the board is printed.
unfoldable pub printed : Session → List ℕ → Reply
unfolding print_all
printed st message = elim st.it [
  | none ↦ said (some message) st [] none
  | some b ↦ said (some message) st (print_all st.details b) none
]

-- `msg or "yes"`, or `msg or "no"`.
unfoldable pub answer : Bool → Option (List ℕ) → List ℕ
answer e (some message) = message
answer true none = codes "yes"
answer false none = codes "no"

-- `pcall(cmd.op, ...)` for a rule, and what follows. An error leaves what was done to the board.
unfoldable pub after_rule : Result × Option (List ℕ) → Session → Reply
unfolding printed answer error_text
after_rule (ok b e, message) st = printed (record st { it = some b }) (answer e message)
after_rule (raised w b, message) st = printed (record st { it = some b }) (error_text w)
after_rule (out_of_fuel, message) st = stuck

unfoldable pub run_command : Command → (ℕ → ℕ) → Board → Session → Reply
unfolding rule_of other_op after_rule printed answer
run_command x a b st = elim (rule_of x a) [
  | some rule ↦ after_rule (rule b) st
  | none ↦ let r = other_op x b st in printed r.0 (answer r.1 r.2)
]

abbrev pub help_line : Command → List ℕ
help_line x = name_of x ++ help_of x

-- A command that is in the table, behind the test for "help".
unfoldable pub eval_command : Command → List Arg → Session → Reply
unfolding name_of help_of nargs numbers push run_command print_blank_board
eval_command x args st = elim (length args == nargs x) [
  | false ↦ said (some (help_line x)) st [] none
  | true ↦ elim (numbers args) [
    | none ↦ said (some (help_line x)) st [] none
    | some ns ↦ elim st.it [
      | none ↦ said (some (codes "no board")) st print_blank_board none
      | some b ↦ run_command x (λ i. get_or ns i 0) b (push st)
    ]
  ]
]

-- The first argument, if there is one.
abbrev pub first_text : List Arg → Option (List ℕ)
first_text [] = none
first_text (a ∷ rest) = some (text_of a)

unfoldable pub eval_other :
    Help → (Option (List ℕ) → Option (List ℕ)) → List ℕ → List Arg → Session → Reply
unfolding do_edit do_help text_of
eval_other help edit name args st = elim (same_text name (codes "edit")) [
  | true ↦ do_edit edit st
  | false ↦ elim (same_text name (codes "help")) [
    | true ↦ do_help help (first_text args) st
    | false ↦ elim (same_text name (codes "index")) [
      | true ↦ do_help help (some name) st
      | false ↦ said (some (codes "command " ++ (name ++ codes " unknown"))) st [] none
    ]
  ]
]

unfoldable pub eval : Help → (Option (List ℕ) → Option (List ℕ)) → Arg → List Arg → Session → Reply
unfolding find_command asks_help eval_command eval_other do_help name_of text_of
eval help edit name args st = elim (find_command name) [
  | none ↦ eval_other help edit (text_of name) args st
  | some x ↦ elim (asks_help args) [
    | true ↦ do_help help (some (name_of x)) st
    | false ↦ eval_command x args st
  ]
]

-- `save`, of the current board.
unfoldable pub saved : Option Board → Session → Reply
unfolding show
saved none st = nothing_to_save st
saved (some b) st = elim (show b) [
  | none ↦ failed board_inconsistent st
  | some s ↦ said (some s) st [] none
]

unfoldable pub save : Session → Reply
unfolding saved
save st = saved st.it st
