-- ===== src/Script/Strategies/Soundness.antt =====
-- The loops over the rules keep the solution of a puzzle.
use gtksudoku.Prelude.{ℕ, zero, suc, ◌+◌, ◌≤◌, ◌<◌, ◌≡◌, refl, Bool, true, false, ◌||◌, arith}
use gtksudoku.Prelude.{List, [], ◌∷◌}
use gtksudoku.Script.Board.{
  Place, Board, determine, propagate_elimination, Result, ok, raised, out_of_fuel, then_with,
}
use gtksudoku.Script.Board.Count.{left, undetermined, undetermined-bound}
use gtksudoku.Script.Board.Determine.{
  Good, Good-le, Good-then_with, determine-Good, propagate_by-Good,
}
use gtksudoku.Script.Board.Progress.{Within, Moves}
use gtksudoku.Script.Solution.{InTable, All, Keeps, is_solution}
use gtksudoku.Script.Load.{digits2, table}
use gtksudoku.Script.Load.Laws.{table-InTable}
use gtksudoku.Script.Rules.{
  one_place_in_all_squares, one_place_in_all_rows, one_place_in_all_columns,
}
use gtksudoku.Script.Rules.Laws.{one_place_in_all-Good}
use gtksudoku.Script.Crossing.Laws.{crossing_rules-Good}
use gtksudoku.Script.Pairs.Laws.{pair_rules-Good}
use gtksudoku.Script.Strategies.{
  repeat_while, repeated, sweep, propagate_all_singletons, or_else, simple_rules, simp_rules, Trial,
  try_in_turn, all_rules, solve, trials,
}
use gtksudoku.Script.Strategies.Basics.{Moving, start}
use gtksudoku.Script.Strategies.Trials.{AllTrials, trials-AllTrials}
use gtksudoku.Script.Strategies.Laws.{on_answer, sweep-Moves, simple_rules-Moving, all_rules-Moving}

-- A call that keeps the solution, and of which it is known what it answers.
Good-moving :
    (sol : Place → ℕ) (n : ℕ) (r : Result) (k : Board → Bool → Result)
    → Good sol digits2 r
    → Moves digits2 n r
    → ((b : Board) (e : Bool) → Keeps sol b → Within digits2 n b e → Good sol digits2 (k b e))
    → Good sol digits2 (then_with r k)
Good-moving sol n (ok b e) k (keeps, few) within next = next b e keeps within
Good-moving sol n (raised w b) k good within next = absurd good
Good-moving sol n out_of_fuel k good within next = absurd good

module _ (sol : Place → ℕ) (solved : is_solution sol ≡ true) where
  abbrev pub Keeping : (Board → Result) → Type 0
  Keeping rule = (b : Board) → Keeps sol b → Good sol digits2 (rule b)

  pub propagate_elimination-Keeping :
      (p : Place) → InTable p → Keeping (propagate_elimination (digits2 + 1) p)
  unfolding propagate_elimination
  propagate_elimination-Keeping p inside b keeps =
      propagate_by-Good sol solved digits2 (determine (digits2 + 1))
        (λ q b' at keeps' few.
          Good-le sol (undetermined b') digits2 (determine (digits2 + 1) q (sol q) b') few
            (determine-Good sol solved (digits2 + 1) q b' at keeps' (omega (arith, few))))
        p b inside keeps (undetermined-bound b)

  sweep-Good :
      (ps : List Place) (b : Board) (f : Bool)
      → All InTable ps
      → Keeps sol b
      → Good sol digits2 (sweep ps b f)
  unfolding sweep
  sweep-Good [] b f inside keeps = (keeps, undetermined-bound b)
  sweep-Good (p ∷ ps) b f (here, inside) keeps =
      Good-then_with sol digits2 (propagate_elimination (digits2 + 1) p b)
        (λ b' g. sweep ps b' (g || f)) (propagate_elimination-Keeping p here b keeps)
        (λ b' g keeps' few. sweep-Good ps b' (g || f) inside keeps')

  repeat_while-Good :
      (body : Board → Result) (fuel : ℕ) (b : Board) (e : Bool)
      → Keeping body
      → Moving body
      → left b < fuel
      → Keeps sol b
      → Good sol digits2 (repeat_while body fuel b e)
  unfolding repeat_while
  repeat_while-Good body zero b e keeping moving enough keeps = absurd (omega (arith, enough))
  repeat_while-Good body (suc fuel) b e keeping moving enough keeps =
      Good-moving sol (left b) (body b)
        (λ b' f. elim f [ true ↦ repeat_while body fuel b' true | false ↦ ok b' e ])
        (keeping b keeps) (moving b)
        (λ b' f keeps' (few, fewer).
          on_answer (Good sol digits2) f (repeat_while body fuel b' true) (ok b' e)
            (λ changed.
              let less : left b' + 1 ≤ left b = ground (arith, changed, fewer) in
              repeat_while-Good body fuel b' true keeping moving (omega (arith, less, enough))
                keeps')
            (λ unchanged. (keeps', few)))

  repeated-Keeping : (body : Board → Result) → Keeping body → Moving body → Keeping (repeated body)
  unfolding repeated
  repeated-Keeping body keeping moving b keeps =
      repeat_while-Good body (left b + 1) b false keeping moving (omega arith) keeps

  or_else-Keeping : (r k : Board → Result) → Keeping r → Keeping k → Keeping (or_else r k)
  or_else-Keeping r k first second b keeps =
      Good-then_with sol digits2 (r b) (λ b' e. elim e [ true ↦ ok b' true | false ↦ k b' ])
        (first b keeps)
        (λ b' e keeps' few.
          on_answer (Good sol digits2) e (ok b' true) (k b') (λ changed. (keeps', few))
            (λ unchanged. second b' keeps'))

  propagate_all-Keeping : Keeping propagate_all_singletons
  unfolding propagate_all_singletons
  propagate_all-Keeping =
      repeated-Keeping (λ b. sweep table b false)
        (λ b keeps. sweep-Good table b false table-InTable keeps)
        (λ b. sweep-Moves (left b) table b false table-InTable (start b))

  simp-Keeping : Keeping simp_rules
  unfolding simp_rules simple_rules
  simp-Keeping =
      repeated-Keeping simple_rules
        (or_else-Keeping propagate_all_singletons
          (or_else one_place_in_all_squares
            (or_else one_place_in_all_rows one_place_in_all_columns))
          propagate_all-Keeping
          (or_else-Keeping one_place_in_all_squares
            (or_else one_place_in_all_rows one_place_in_all_columns)
            (λ b keeps. (one_place_in_all-Good sol solved b keeps).0)
            (or_else-Keeping one_place_in_all_rows one_place_in_all_columns
              (λ b keeps. (one_place_in_all-Good sol solved b keeps).1)
              (λ b keeps. (one_place_in_all-Good sol solved b keeps).2))))
        simple_rules-Moving

  try_in_turn-next :
      (t : Trial) (ts : List Trial) (b : Board) (r : Result)
      → t.rule b ≡ r
      → Good sol digits2 r
      → Keeping (λ b. (try_in_turn ts b).0)
      → Good sol digits2 (try_in_turn (t ∷ ts) b).0
  unfolding try_in_turn
  try_in_turn-next t ts b (ok b' true) e good rest = rw (try_in_turn, e) good
  try_in_turn-next t ts b (ok b' false) e (keeps, few) rest = rw (try_in_turn, e) (rest b' keeps)
  try_in_turn-next t ts b (raised w b') e good rest = absurd good
  try_in_turn-next t ts b out_of_fuel e good rest = absurd good

  try_in_turn-Keeping :
      (ts : List Trial) → AllTrials Keeping ts → Keeping (λ b. (try_in_turn ts b).0)
  unfolding try_in_turn
  try_in_turn-Keeping [] all b keeps = (keeps, undetermined-bound b)
  try_in_turn-Keeping (t ∷ ts) (here, all) b keeps =
      try_in_turn-next t ts b (t.rule b) refl (here b keeps) (try_in_turn-Keeping ts all)

  all_rules-Keeping : Keeping (λ b. (all_rules b).0)
  unfolding all_rules
  all_rules-Keeping = try_in_turn-Keeping trials (
      trials-AllTrials Keeping simp-Keeping
        (λ d r c i j k.
          let at = λ (b : Board) (keeps : Keeps sol b).
            crossing_rules-Good sol solved d i.0 i.1 r c b j.0 j.1 k.0 k.1 keeps in
          (
            λ b keeps. (at b keeps).0,
            λ b keeps. (at b keeps).1,
            λ b keeps. (at b keeps).2,
            λ b keeps. (at b keeps).3,
          ))
        (λ d1 d2 r c i j k l.
          let at = λ (b : Board) (keeps : Keeps sol b).
            pair_rules-Good sol solved d1 d2 i j r c b k l keeps in
          (
            λ b keeps. (at b keeps).0,
            λ b keeps. (at b keeps).1,
            λ b keeps. (at b keeps).2,
            λ b keeps. (at b keeps).3,
            λ b keeps. (at b keeps).4,
            λ b keeps. (at b keeps).5,
          )))

  -- On a board on which the digits of a solution of the puzzle are left, each of the loops over the
  -- rules returns, without an error, and leaves a board on which they are still left.
  pub strategies-Keeping :
      (b : Board)
      → Keeps sol b
      → Good sol digits2 (propagate_all_singletons b)
        × Good sol digits2 (simp_rules b)
        × Good sol digits2 (all_rules b).0
        × Good sol digits2 (solve b)
  unfolding solve
  strategies-Keeping b keeps = (
    propagate_all-Keeping b keeps,
    simp-Keeping b keeps,
    all_rules-Keeping b keeps,
    repeated-Keeping (λ b. (all_rules b).0) all_rules-Keeping all_rules-Moving b keeps,
  )
