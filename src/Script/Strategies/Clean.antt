-- ===== src/Script/Strategies/Clean.antt =====
-- The loops over the rules take the digits that they determine away from the other places.
use gtksudoku.Prelude.{ℕ, zero, suc, ◌+◌, ◌≡◌, refl, Bool, true, false, ◌||◌, List, [], ◌∷◌}
use gtksudoku.Script.Board.{Place, Board, propagate_elimination, Result, ok, raised, out_of_fuel}
use gtksudoku.Script.Board.Count.{left}
use gtksudoku.Script.Board.Clean.{OnOk, Step, Step-refl, Step-next, Stepping}
use gtksudoku.Script.Board.Clean.Determined.{propagate_elimination-Stepping}
use gtksudoku.Script.Load.{digits2, table}
use gtksudoku.Script.Rules.{
  one_place_in_all_squares, one_place_in_all_rows, one_place_in_all_columns,
}
use gtksudoku.Script.Rules.Clean.{
  Stepping-then_with, all_squares-Stepping, all_rows-Stepping, all_columns-Stepping,
}
use gtksudoku.Script.Pairs.Clean.{crossing-Stepping, pairs-Stepping}
use gtksudoku.Script.Strategies.{
  repeat_while, repeated, sweep, propagate_all_singletons, or_else, simple_rules, simp_rules, Trial,
  try_in_turn, all_rules, solve, trials,
}
use gtksudoku.Script.Strategies.Laws.{on_answer}
use gtksudoku.Script.Strategies.Trials.{AllTrials, trials-AllTrials}

sweep-Step : (ps : List Place) (b : Board) (f : Bool) → OnOk (Step b) (sweep ps b f)
unfolding sweep
sweep-Step [] b f = Step-refl b
sweep-Step (p ∷ ps) b f =
    Stepping-then_with b (propagate_elimination (digits2 + 1) p b) (λ b' g. sweep ps b' (g || f))
      (propagate_elimination-Stepping (digits2 + 1) p b) (λ b' g. sweep-Step ps b' (g || f))

repeat_while-Step :
    (body : Board → Result) (fuel : ℕ) (b : Board) (e : Bool)
    → Stepping body
    → OnOk (Step b) (repeat_while body fuel b e)
unfolding repeat_while
repeat_while-Step body zero b e steps = tt
repeat_while-Step body (suc fuel) b e steps =
    Stepping-then_with b (body b)
      (λ b' f. elim f [ true ↦ repeat_while body fuel b' true | false ↦ ok b' e ]) (steps b)
      (λ b' f.
        on_answer (OnOk (Step b')) f (repeat_while body fuel b' true) (ok b' e)
          (λ changed. repeat_while-Step body fuel b' true steps) (λ unchanged. Step-refl b'))

repeated-Stepping : (body : Board → Result) → Stepping body → Stepping (repeated body)
unfolding repeated
repeated-Stepping body steps b = repeat_while-Step body (left b + 1) b false steps

or_else-Stepping : (r k : Board → Result) → Stepping r → Stepping k → Stepping (or_else r k)
or_else-Stepping r k first second b =
    Stepping-then_with b (r b) (λ b' e. elim e [ true ↦ ok b' true | false ↦ k b' ]) (first b)
      (λ b' e.
        on_answer (OnOk (Step b')) e (ok b' true) (k b') (λ changed. Step-refl b')
          (λ unchanged. second b'))

propagate_all-Stepping : Stepping propagate_all_singletons
unfolding propagate_all_singletons
propagate_all-Stepping =
    repeated-Stepping (λ b. sweep table b false) (λ b. sweep-Step table b false)

simp-Stepping : Stepping simp_rules
unfolding simp_rules simple_rules
simp-Stepping = repeated-Stepping simple_rules (
    or_else-Stepping propagate_all_singletons
      (or_else one_place_in_all_squares (or_else one_place_in_all_rows one_place_in_all_columns))
      propagate_all-Stepping
      (or_else-Stepping one_place_in_all_squares
        (or_else one_place_in_all_rows one_place_in_all_columns) all_squares-Stepping
        (or_else-Stepping one_place_in_all_rows one_place_in_all_columns all_rows-Stepping
          all_columns-Stepping)))

try_in_turn-next :
    (t : Trial) (ts : List Trial) (b : Board) (r : Result)
    → t.rule b ≡ r
    → OnOk (Step b) r
    → Stepping (λ b. (try_in_turn ts b).0)
    → OnOk (Step b) (try_in_turn (t ∷ ts) b).0
unfolding try_in_turn
try_in_turn-next t ts b (ok b' true) e step rest = rw (try_in_turn, e) step
try_in_turn-next t ts b (ok b' false) e step rest =
    rw (try_in_turn, e) (Step-next b b' (try_in_turn ts b').0 step (rest b'))
try_in_turn-next t ts b (raised w b') e step rest = rw (try_in_turn, e) tt
try_in_turn-next t ts b out_of_fuel e step rest = rw (try_in_turn, e) tt

try_in_turn-Stepping :
    (ts : List Trial) → AllTrials Stepping ts → Stepping (λ b. (try_in_turn ts b).0)
unfolding try_in_turn
try_in_turn-Stepping [] all b = Step-refl b
try_in_turn-Stepping (t ∷ ts) (here, all) b =
    try_in_turn-next t ts b (t.rule b) refl (here b) (try_in_turn-Stepping ts all)

all_rules-Stepping : Stepping (λ b. (all_rules b).0)
unfolding all_rules
all_rules-Stepping = try_in_turn-Stepping trials (
    trials-AllTrials Stepping simp-Stepping (λ d r c i j k. crossing-Stepping d r c)
      (λ d1 d2 r c i j k l. pairs-Stepping d1 d2 r c))

pub loops-Stepping :
    Stepping propagate_all_singletons
    × Stepping simp_rules
    × Stepping (λ b. (all_rules b).0)
    × Stepping solve
unfolding solve
loops-Stepping = (
  propagate_all-Stepping,
  simp-Stepping,
  all_rules-Stepping,
  repeated-Stepping (λ b. (all_rules b).0) all_rules-Stepping,
)
