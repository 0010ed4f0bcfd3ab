-- ===== src/Script/Commands/Facts.antt =====
-- What holds of every rule that a command applies.
use gtksudoku.Prelude.{ℕ, ◌+◌, ◌<◌, ◌≡◌, true, false, arith, Option, none, some, List}
use gtksudoku.Script.Board.{Place, Board, propagate_elimination, Result, ok}
use gtksudoku.Script.Board.Count.{undetermined-bound}
use gtksudoku.Script.Solution.{Keeps, is_solution}
use gtksudoku.Script.Load.{digits2}
use gtksudoku.Script.Rules.{one_place_in_square, one_place_in_row, one_place_in_column}
use gtksudoku.Script.Rules.Laws.{square-Rule, row-Rule, column-Rule}
use gtksudoku.Script.Crossing.{
  one_row_in_square, one_column_in_square, one_square_for_row, one_square_for_column,
}
use gtksudoku.Script.Crossing.Laws.{crossing_rules-Good, at_cell-Good}
use gtksudoku.Script.Pairs.{
  two_places_for_pair_in_square, two_places_for_pair_in_row, two_places_for_pair_in_column,
}
use gtksudoku.Script.Pairs.{same_pair_in_square, same_pair_in_row, same_pair_in_column}
use gtksudoku.Script.Pairs.Laws.{InDigits, pair_rules-Good}
use gtksudoku.Script.Strategies.{propagate_all_singletons, simp_rules, all_rules, solve}
use gtksudoku.Script.Strategies.Basics.{Moving, start, square-Moving, row-Moving, column-Moving}
use gtksudoku.Script.Strategies.Advanced.{at_cell-Moving, crossing-Moving, pairs-Moving}
use gtksudoku.Script.Strategies.Laws.{propagate_elimination-Moving, strategies-Moving}
use gtksudoku.Script.Board.Clean.{Stepping, Step-refl}
use gtksudoku.Script.Board.Clean.Determined.{propagate_elimination-Stepping}
use gtksudoku.Script.Rules.Clean.{square-Stepping, row-Stepping, column-Stepping}
use gtksudoku.Script.Pairs.Clean.{at_cell-Stepping, crossing-Stepping, pairs-Stepping}
use gtksudoku.Script.Strategies.Clean.{loops-Stepping}
use gtksudoku.Script.Strategies.Soundness.{
  Keeping, propagate_elimination-Keeping, strategies-Keeping,
}
use gtksudoku.Script.Commands.{
  Command, back_, swap_, new_, details, normal, s, r, c, d, rs, cs, sr, sc, ps, pr, pc, sps, spr,
  spc, hint_, p, simp, all, solve_,
}
use gtksudoku.Script.Commands.{rule_of, nargs, determine_cell}

-- A predicate that holds of all the rules, for digits, rows and columns from 1 to 9.
pub record Facts (P : (Board → Result) → Type 0) : Type 0 where
  square : (k i j : ℕ) → InDigits k → InDigits i → InDigits j → P (one_place_in_square k i j)
  row : (k i : ℕ) → InDigits k → InDigits i → P (one_place_in_row k i)
  column : (k i : ℕ) → InDigits k → InDigits i → P (one_place_in_column k i)
  cell : (i j : ℕ) → InDigits i → InDigits j → P (determine_cell i j)
  crossing :
      (k i j : ℕ)
      → InDigits k
      → InDigits i
      → InDigits j
      → P (one_row_in_square k i j)
        × P (one_column_in_square k i j)
        × P (one_square_for_row k i j)
        × P (one_square_for_column k i j)
  pairs :
      (k l i j : ℕ)
      → InDigits k
      → InDigits l
      → InDigits i
      → InDigits j
      → P (two_places_for_pair_in_square k l i j)
        × P (two_places_for_pair_in_row k l i)
        × P (two_places_for_pair_in_column k l j)
        × P (same_pair_in_square k l i j)
        × P (same_pair_in_row k l i)
        × P (same_pair_in_column k l j)
  hint : P (λ b. ok b false)
  loops : P propagate_all_singletons × P simp_rules × P (λ b. (all_rules b).0) × P solve

-- Of the rule of a command, if it has one.
abbrev pub Held : ((Board → Result) → Type 0) → Option (Board → Result × Option (List ℕ)) → Type 0
Held P none = Unit
Held P (some rule) = P (λ b. (rule b).0)

module _ (P : (Board → Result) → Type 0) (facts : Facts P) (a : ℕ → ℕ) where
  open facts use {square, row, column, cell, crossing, pairs, hint, loops}

  pub rule_of-Held : (x : Command) → ((i : ℕ) → i < nargs x → InDigits (a i)) → Held P (rule_of x a)
  unfolding rule_of nargs
  rule_of-Held s h =
      square (a 0) (a 1) (a 2) (h 0 (omega arith)) (h 1 (omega arith)) (h 2 (omega arith))
  rule_of-Held r h = row (a 0) (a 1) (h 0 (omega arith)) (h 1 (omega arith))
  rule_of-Held c h = column (a 0) (a 1) (h 0 (omega arith)) (h 1 (omega arith))
  rule_of-Held d h = cell (a 1) (a 2) (h 1 (omega arith)) (h 2 (omega arith))
  rule_of-Held rs h =
      (crossing (a 0) (a 1) (a 2) (h 0 (omega arith)) (h 1 (omega arith)) (h 2 (omega arith))).0
  rule_of-Held cs h =
      (crossing (a 0) (a 1) (a 2) (h 0 (omega arith)) (h 1 (omega arith)) (h 2 (omega arith))).1
  rule_of-Held sr h =
      (crossing (a 0) (a 1) (a 2) (h 0 (omega arith)) (h 1 (omega arith)) (h 2 (omega arith))).2
  rule_of-Held sc h =
      (crossing (a 0) (a 1) (a 2) (h 0 (omega arith)) (h 1 (omega arith)) (h 2 (omega arith))).3
  rule_of-Held ps h =
      (pairs (a 0) (a 1) (a 2) (a 3) (h 0 (omega arith)) (h 1 (omega arith)) (h 2 (omega arith))
        (h 3 (omega arith))).0
  rule_of-Held pr h =
      (pairs (a 0) (a 1) (a 2) (a 2) (h 0 (omega arith)) (h 1 (omega arith)) (h 2 (omega arith))
        (h 2 (omega arith))).1
  rule_of-Held pc h =
      (pairs (a 0) (a 1) (a 2) (a 2) (h 0 (omega arith)) (h 1 (omega arith)) (h 2 (omega arith))
        (h 2 (omega arith))).2
  rule_of-Held sps h =
      (pairs (a 0) (a 1) (a 2) (a 3) (h 0 (omega arith)) (h 1 (omega arith)) (h 2 (omega arith))
        (h 3 (omega arith))).3
  rule_of-Held spr h =
      (pairs (a 0) (a 1) (a 2) (a 2) (h 0 (omega arith)) (h 1 (omega arith)) (h 2 (omega arith))
        (h 2 (omega arith))).4
  rule_of-Held spc h =
      (pairs (a 0) (a 1) (a 2) (a 2) (h 0 (omega arith)) (h 1 (omega arith)) (h 2 (omega arith))
        (h 2 (omega arith))).5
  rule_of-Held hint_ h = hint
  rule_of-Held p h = loops.0
  rule_of-Held simp h = loops.1
  rule_of-Held all h = loops.2
  rule_of-Held solve_ h = loops.3
  rule_of-Held back_ h = tt
  rule_of-Held swap_ h = tt
  rule_of-Held new_ h = tt
  rule_of-Held details h = tt
  rule_of-Held normal h = tt

-- All the rules come to an end.
pub Moving-Facts : Facts Moving
Moving-Facts = record {
  square = λ k i j _ _ _. square-Moving k i j;
  row = λ k i _ _. row-Moving k i;
  column = λ k i _ _. column-Moving k i;
  cell = λ i j _ _.
      at_cell-Moving i j (propagate_elimination (digits2 + 1)) propagate_elimination-Moving;
  crossing = λ k i j _ _ _. crossing-Moving k i j;
  pairs = λ k l i j _ _ _ _. pairs-Moving k l i j;
  hint = start;
  loops = (
    λ b. (strategies-Moving b).0,
    λ b. (strategies-Moving b).1,
    λ b. (strategies-Moving b).2,
    λ b. (strategies-Moving b).3,
  );
}

-- All the rules keep a solution.
pub Keeping-Facts : (sol : Place → ℕ) (solved : is_solution sol ≡ true) → Facts (Keeping sol solved)
Keeping-Facts sol solved = record {
  square = λ k i j u v w b. square-Rule sol solved k u.0 u.1 i v.0 v.1 j b w.0 w.1;
  row = λ k i u v b. row-Rule sol solved k u.0 u.1 i b v.0 v.1;
  column = λ k i u v b. column-Rule sol solved k u.0 u.1 i b v.0 v.1;
  cell = λ i j v w b keeps.
      at_cell-Good sol solved 1 (omega arith) (omega arith) (propagate_elimination (digits2 + 1)) i
        j b (λ q b' at keeps'. propagate_elimination-Keeping sol solved q at b' keeps') v.0 v.1 w.0
        w.1 keeps;
  crossing = λ k i j u v w.
      let at = λ (b : Board) (keeps : Keeps sol b).
        crossing_rules-Good sol solved k u.0 u.1 i j b v.0 v.1 w.0 w.1 keeps in
      (
        λ b keeps. (at b keeps).0,
        λ b keeps. (at b keeps).1,
        λ b keeps. (at b keeps).2,
        λ b keeps. (at b keeps).3,
      );
  pairs = λ k l i j t u v w.
      let at =
        λ (b : Board) (keeps : Keeps sol b). pair_rules-Good sol solved k l t u i j b v w keeps in
      (
        λ b keeps. (at b keeps).0,
        λ b keeps. (at b keeps).1,
        λ b keeps. (at b keeps).2,
        λ b keeps. (at b keeps).3,
        λ b keeps. (at b keeps).4,
        λ b keeps. (at b keeps).5,
      );
  hint = λ b keeps. (keeps, undetermined-bound b);
  loops = (
    λ b keeps. (strategies-Keeping sol solved b keeps).0,
    λ b keeps. (strategies-Keeping sol solved b keeps).1,
    λ b keeps. (strategies-Keeping sol solved b keeps).2,
    λ b keeps. (strategies-Keeping sol solved b keeps).3,
  );
}

-- All the rules take the digits that they determine away from the other places.
pub Stepping-Facts : Facts Stepping
Stepping-Facts = record {
  square = λ k i j _ _ _. square-Stepping k i j;
  row = λ k i _ _. row-Stepping k i;
  column = λ k i _ _. column-Stepping k i;
  cell = λ i j _ _.
      at_cell-Stepping i j (propagate_elimination (digits2 + 1))
        (propagate_elimination-Stepping (digits2 + 1));
  crossing = λ k i j _ _ _. crossing-Stepping k i j;
  pairs = λ k l i j _ _ _ _. pairs-Stepping k l i j;
  hint = Step-refl;
  loops = loops-Stepping;
}
