-- ===== src/Script/Commands.antt =====
-- The commands of src/sudoku.lua: the command table.
pub mod Facts
pub mod Played
pub mod Solved
use gtksudoku.Prelude.{
  ℕ, zero, suc, ◌+◌, ◌/◌, ◌%◌, Bool, true, false, not, ◌&&◌, ◌||◌, Option, none, some,
}
use gtksudoku.Prelude.{List, [], ◌∷◌, ◌++◌, ◌==◌, leb, if◌then◌else◌, length, get_or, same_text}
use gtksudoku.Prelude.{ℤ, pos, negsuc}
use gtksudoku.Constants.{digits}
use gtksudoku.Tools.Files.{codes}
use gtksudoku.Script.Board.{Place, Board, Result, Error, board_inconsistent, bad_index, bad_input}
use gtksudoku.Script.Board.{ok, raised, out_of_fuel, propagate_elimination}
use gtksudoku.Script.Load
use gtksudoku.Script.Load.{digits2, strip_string}
use gtksudoku.Script.Rules.{spread, one_place_in_square, one_place_in_row, one_place_in_column}
use gtksudoku.Script.Crossing.{
  at_cell, one_row_in_square, one_column_in_square, one_square_for_row, one_square_for_column,
}
use gtksudoku.Script.Pairs.{
  two_places_for_pair_in_square, two_places_for_pair_in_row, two_places_for_pair_in_column,
  same_pair_in_square, same_pair_in_row, same_pair_in_column,
}
use gtksudoku.Script.Strategies.{propagate_all_singletons, simp_rules, all_rules, solve}
use gtksudoku.Script.Session.{
  Session, push, back, swap, new, tostring, show, SetVal, squares, print_all, print_blank_board,
  Reply, said, failed, nothing_to_save, stuck, reading,
}
use gtksudoku.Script.Hint.{hint}

pub data Command : Type 0 where
  back_ swap_ new_ details normal : Command
  s r c d rs cs sr sc ps pr pc sps spr spc hint_ p simp all solve_ : Command

abbrev pub commands : List Command
commands =
    back_ ∷ swap_ ∷ new_ ∷ details ∷ normal ∷ s ∷ r ∷ c ∷ d ∷ rs ∷ cs ∷ sr ∷ sc ∷ ps ∷ pr ∷ pc ∷ sps
    ∷ spr ∷ spc ∷ hint_ ∷ p ∷ simp ∷ all ∷ solve_ ∷ []

-- The name of a command is the front of its help line.
unfoldable pub name_of : Command → List ℕ
name_of back_ = codes "back"
name_of swap_ = codes "swap"
name_of new_ = codes "new"
name_of details = codes "details"
name_of normal = codes "normal"
name_of s = codes "s"
name_of r = codes "r"
name_of c = codes "c"
name_of d = codes "d"
name_of rs = codes "rs"
name_of cs = codes "cs"
name_of sr = codes "sr"
name_of sc = codes "sc"
name_of ps = codes "ps"
name_of pr = codes "pr"
name_of pc = codes "pc"
name_of sps = codes "sps"
name_of spr = codes "spr"
name_of spc = codes "spc"
name_of hint_ = codes "hint"
name_of p = codes "p"
name_of simp = codes "simp"
name_of all = codes "all"
name_of solve_ = codes "solve"

-- The rest of the help line.
unfoldable pub help_of : Command → List ℕ
help_of back_ = codes " -- replace the current board with the one most recently saved"
help_of swap_ = codes " -- swap the current board with the one most recently saved"
help_of new_ = codes " -- make a blank board"
help_of details = codes " -- show detailed cell view"
help_of normal = codes " -- show normal cell view"
help_of s = codes " <digit> <row> <col> -- square determines digit"
help_of r = codes " <digit> <row> -- row determines digit"
help_of c = codes " <digit> <col> -- column determines digit"
help_of d = codes " <digit> <row> <col> -- determine digit"
help_of rs = codes " <digit> <row> <col> -- digit in one row in square"
help_of cs = codes " <digit> <row> <col> -- digit in one column in square"
help_of sr = codes " <digit> <row> <col> -- digit in one square of row"
help_of sc = codes " <digit> <row> <col> -- digit in one square of column"
help_of ps = codes " <digit> <digit> <row> <col> -- two places for pair in square"
help_of pr = codes " <digit> <digit> <row> -- two places for pair in row"
help_of pc = codes " <digit> <digit> <col> -- two places for pair in column"
help_of sps = codes " <digit> <digit> <row> <col> -- same pair in square"
help_of spr = codes " <digit> <digit> <row> -- same pair in row"
help_of spc = codes " <digit> <digit> <col> -- same pair in column"
help_of hint_ = codes " -- print a simple hint"
help_of p = codes " -- propagate all singletons"
help_of simp = codes " -- repeatly apply simple rules"
help_of all = codes " -- try all rules"
help_of solve_ = codes " -- repeatly apply all rules"

unfoldable pub nargs : Command → ℕ
nargs s = 3
nargs r = 2
nargs c = 2
nargs d = 3
nargs rs = 3
nargs cs = 3
nargs sr = 3
nargs sc = 3
nargs ps = 4
nargs pr = 3
nargs pc = 3
nargs sps = 4
nargs spr = 3
nargs spc = 3
nargs _ = 0

-- The rule of a command: what its `op` does to the current board, with the second value.
abbrev pub silent : (Board → Result) → Option (Board → Result × Option (List ℕ))
silent rule = some (λ b. (rule b, none))

-- `cmds.d.op`; the digit is not used.
abbrev pub determine_cell : ℕ → ℕ → Board → Result
determine_cell row col b = at_cell row col (propagate_elimination (digits2 + 1)) b

-- The arguments count from 0; they are as many as the command takes.
unfoldable pub rule_of : Command → (ℕ → ℕ) → Option (Board → Result × Option (List ℕ))
unfolding at_cell propagate_elimination one_place_in_square one_place_in_row one_place_in_column
    one_row_in_square one_column_in_square one_square_for_row one_square_for_column
    two_places_for_pair_in_square two_places_for_pair_in_row two_places_for_pair_in_column
    same_pair_in_square same_pair_in_row same_pair_in_column propagate_all_singletons simp_rules
    all_rules solve hint squares
rule_of s a = silent (one_place_in_square (a 0) (a 1) (a 2))
rule_of r a = silent (one_place_in_row (a 0) (a 1))
rule_of c a = silent (one_place_in_column (a 0) (a 1))
rule_of d a = silent (determine_cell (a 1) (a 2))
rule_of rs a = silent (one_row_in_square (a 0) (a 1) (a 2))
rule_of cs a = silent (one_column_in_square (a 0) (a 1) (a 2))
rule_of sr a = silent (one_square_for_row (a 0) (a 1) (a 2))
rule_of sc a = silent (one_square_for_column (a 0) (a 1) (a 2))
rule_of ps a = silent (two_places_for_pair_in_square (a 0) (a 1) (a 2) (a 3))
rule_of pr a = silent (two_places_for_pair_in_row (a 0) (a 1) (a 2))
rule_of pc a = silent (two_places_for_pair_in_column (a 0) (a 1) (a 2))
rule_of sps a = silent (same_pair_in_square (a 0) (a 1) (a 2) (a 3))
rule_of spr a = silent (same_pair_in_row (a 0) (a 1) (a 2))
rule_of spc a = silent (same_pair_in_column (a 0) (a 1) (a 2))
rule_of hint_ a = some (λ b. (ok b false, some (hint squares b)))
rule_of p a = silent propagate_all_singletons
rule_of simp a = silent simp_rules
rule_of all a = some all_rules
rule_of solve_ a = silent solve
rule_of _ a = none

-- A command that is no rule: the state, the answer and the message.
unfoldable pub other_op : Command → Board → Session → Session × Bool × Option (List ℕ)
unfolding back swap new
other_op back_ b st = let r = back b st in (r.0, r.1, none)
other_op swap_ b st = let r = swap b st in (r.0, r.1, none)
other_op new_ b st = let r = new st in (r.0, r.1, none)
other_op details b st = (record st { details = true }, false, some (codes "detailed view enabled"))
other_op normal b st = (record st { details = false }, false, some (codes "detailed view disabled"))
other_op _ b st = (st, false, none)
