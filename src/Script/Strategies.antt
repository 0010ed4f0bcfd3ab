-- ===== src/Script/Strategies.antt =====
-- The loops over the rules in src/sudoku.lua: `propagate_all_singletons`, `simp`, `all` and the
-- command `solve`. The loops that repeat run on fuel: one more than the digits that are left on the
-- board, as each round but the last takes one away.
pub mod Basics
pub mod Advanced
pub mod Trials
pub mod Laws
pub mod Soundness
pub mod Clean
use gtksudoku.Prelude.{ℕ, zero, suc, ◌+◌, Bool, true, false, ◌||◌, Option, none, some}
use gtksudoku.Prelude.{List, [], ◌∷◌, ◌++◌, ◌==◌, map}
use gtksudoku.Tools.Files.{codes}
use gtksudoku.Script.Board.{
  Place, Board, propagate_elimination, Result, ok, raised, out_of_fuel, then_with,
}
use gtksudoku.Script.Board.Count.{left}
use gtksudoku.Script.Load.{digits2, table}
use gtksudoku.Script.Rules.{
  one_place_in_all_squares, one_place_in_all_rows, one_place_in_all_columns,
}
use gtksudoku.Script.Crossing.{
  one_row_in_square, one_column_in_square, one_square_for_row, one_square_for_column,
}
use gtksudoku.Script.Pairs.{
  two_places_for_pair_in_square, two_places_for_pair_in_row, two_places_for_pair_in_column,
  same_pair_in_square, same_pair_in_row, same_pair_in_column,
}

-- `repeat f = body; e = e or f until not f`.
unfoldable pub repeat_while : (Board → Result) → ℕ → Board → Bool → Result
repeat_while body zero b e = out_of_fuel
repeat_while body (suc fuel) b e =
    then_with (body b) (λ b' f. elim f [ true ↦ repeat_while body fuel b' true | false ↦ ok b' e ])

unfoldable pub repeated : (Board → Result) → Board → Result
unfolding repeat_while left
repeated body b = repeat_while body (left b + 1) b false

-- One round of `propagate_all_singletons`.
unfoldable pub sweep : List Place → Board → Bool → Result
unfolding propagate_elimination
sweep [] b f = ok b f
sweep (p ∷ ps) b f =
    then_with (propagate_elimination (digits2 + 1) p b) (λ b' g. sweep ps b' (g || f))

unfoldable pub propagate_all_singletons : Board → Result
unfolding repeated sweep table
propagate_all_singletons b = repeated (λ b. sweep table b false) b

-- `first or second`, where a call that answers true is the last.
abbrev pub or_else : (Board → Result) → (Board → Result) → Board → Result
or_else first second b =
    then_with (first b) (λ b' e. elim e [ true ↦ ok b' true | false ↦ second b' ])

unfoldable pub simple_rules : Board → Result
unfolding propagate_all_singletons one_place_in_all_squares one_place_in_all_rows
    one_place_in_all_columns
simple_rules b =
    or_else propagate_all_singletons
      (or_else one_place_in_all_squares (or_else one_place_in_all_rows one_place_in_all_columns)) b

unfoldable pub simp_rules : Board → Result
unfolding repeated simple_rules
simp_rules b = repeated simple_rules b

-- A rule with its arguments, and the message that comes with the answer true.
pub record Trial : Type 0 where
  pub message : List ℕ
  pub rule : Board → Result

-- Rules are tried in turn, up to one that answers true.
unfoldable pub try_in_turn : List Trial → Board → Result × Option (List ℕ)
try_in_turn [] b = (ok b false, none)
try_in_turn (t ∷ ts) b = elim (t.rule b) [
  | ok b' e ↦ elim e [ true ↦ (ok b' true, some t.message) | false ↦ try_in_turn ts b' ]
  | raised w b' ↦ (raised w b', none)
  | out_of_fuel ↦ (out_of_fuel, none)
]

-- A number from 1 to 9 in a text.
abbrev pub numeral : ℕ → List ℕ
numeral n = (48 + n) ∷ []

-- " at (row, col)"
abbrev pub at_place : ℕ → ℕ → List ℕ
at_place r c = codes " at (" ++ (numeral r ++ (codes ", " ++ (numeral c ++ codes ")")))

abbrev pub one_to_nine : List ℕ
one_to_nine = 1 ∷ 2 ∷ 3 ∷ 4 ∷ 5 ∷ 6 ∷ 7 ∷ 8 ∷ 9 ∷ []

-- A loop that collects.
unfoldable pub each : List ℕ → (ℕ → List Trial) → List Trial
each [] f = []
each (n ∷ ns) f = f n ++ each ns f

-- The body of the loops over digits, rows and columns.
unfoldable pub crossing_trials : ℕ → ℕ → ℕ → List Trial
unfolding one_row_in_square one_column_in_square one_square_for_row one_square_for_column
crossing_trials d r c =
    record { message = codes "one row in square" ++ at_place r c; rule = one_row_in_square d r c }
    ∷ record {
      message = codes "one column in square" ++ at_place r c;
      rule = one_column_in_square d r c;
    }
    ∷ record {
      message = codes "one square for row" ++ at_place r c;
      rule = one_square_for_row d r c;
    }
    ∷ record {
      message = codes "one square for column" ++ at_place r c;
      rule = one_square_for_column d r c;
    }
    ∷ []

-- The bodies of the loops over two digits.
unfoldable pub column_trials : ℕ → ℕ → ℕ → List Trial
unfolding two_places_for_pair_in_column same_pair_in_column
column_trials d1 d2 c =
    record {
      message = codes "two places for pair in column at " ++ numeral c;
      rule = two_places_for_pair_in_column d1 d2 c;
    }
    ∷ record {
      message = codes "same pair in column at " ++ numeral c;
      rule = same_pair_in_column d1 d2 c;
    }
    ∷ []

unfoldable pub row_trials : ℕ → ℕ → ℕ → List Trial
unfolding two_places_for_pair_in_row same_pair_in_row
row_trials d1 d2 r =
    record {
      message = codes "two places for pair in row at " ++ numeral r;
      rule = two_places_for_pair_in_row d1 d2 r;
    }
    ∷ record {
      message = codes "same pair in row at " ++ numeral r;
      rule = same_pair_in_row d1 d2 r;
    }
    ∷ []

unfoldable pub square_trials : ℕ → ℕ → ℕ → ℕ → List Trial
unfolding two_places_for_pair_in_square same_pair_in_square
square_trials d1 d2 r c =
    record {
      message = codes "two places for pair in square" ++ at_place r c;
      rule = two_places_for_pair_in_square d1 d2 r c;
    }
    ∷ record {
      message = codes "same pair in square" ++ at_place r c;
      rule = same_pair_in_square d1 d2 r c;
    }
    ∷ []

unfoldable pub pair_trials : ℕ → ℕ → List Trial
unfolding each column_trials row_trials square_trials
pair_trials d1 d2 = elim (d1 == d2) [
  | true ↦ []
  | false ↦
      each one_to_nine (column_trials d1 d2)
      ++ each one_to_nine (λ r. row_trials d1 d2 r ++ each one_to_nine (square_trials d1 d2 r))
]

unfoldable pub trials : List Trial
unfolding simp_rules each crossing_trials pair_trials
trials =
    record { message = codes "simp"; rule = simp_rules }
    ∷ (each one_to_nine (λ d. each one_to_nine (λ r. each one_to_nine (crossing_trials d r)))
        ++ each one_to_nine (λ d1. each one_to_nine (pair_trials d1)))

-- `Board:all`; its second value is the message.
unfoldable pub all_rules : Board → Result × Option (List ℕ)
unfolding try_in_turn trials
all_rules b = try_in_turn trials b

-- `cmds.solve.op`
unfoldable pub solve : Board → Result
unfolding repeated all_rules
solve b = repeated (λ b. (all_rules b).0) b
