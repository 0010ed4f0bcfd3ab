-- ===== src/Script/Strategies/Laws.antt =====
-- The loops over the rules come to an end on every board.
use gtksudoku.Prelude.{ℕ, zero, suc, ◌+◌, ◌≤◌, ◌<◌, ◌≡◌, refl, Bool, true, false, ◌||◌, arith}
use gtksudoku.Prelude.{List, [], ◌∷◌}
use gtksudoku.Script.Board.{
  Place, Board, determine, propagate_elimination, Result, ok, raised, out_of_fuel,
}
use gtksudoku.Script.Board.Count.{left, undetermined, undetermined-bound}
use gtksudoku.Script.Board.Progress.{
  Within, Moves, Moves-le, Moves-then_with, determine-Moves, propagate_by-Moves,
}
use gtksudoku.Script.Solution.{InTable, All}
use gtksudoku.Script.Load.{digits2, table}
use gtksudoku.Script.Load.Laws.{table-InTable}
use gtksudoku.Script.Rules.{
  one_place_in_all_squares, one_place_in_all_rows, one_place_in_all_columns,
}
use gtksudoku.Script.Strategies.{
  repeat_while, repeated, sweep, propagate_all_singletons, or_else, simple_rules, simp_rules, Trial,
  try_in_turn, all_rules, solve, trials,
}
use gtksudoku.Script.Strategies.Basics.{
  Moving, Moving-then_with, start, all_squares-Moving, all_rows-Moving, all_columns-Moving,
}
use gtksudoku.Script.Strategies.Advanced.{crossing-Moving, pairs-Moving}
use gtksudoku.Script.Strategies.Trials.{AllTrials, trials-AllTrials}

pub propagate_elimination-Moving :
    (p : Place) → InTable p → Moving (propagate_elimination (digits2 + 1) p)
unfolding propagate_elimination
propagate_elimination-Moving p inside b =
    propagate_by-Moves digits2 (determine (digits2 + 1))
      (λ d q b' at few.
        Moves-le (undetermined b') (left b') digits2 (left b') (determine (digits2 + 1) q d b') few
          (omega arith) (determine-Moves (digits2 + 1) q d b' at (omega (arith, few))))
      p b inside (undetermined-bound b)

pub sweep-Moves :
    (n : ℕ) (ps : List Place) (b : Board) (f : Bool)
    → All InTable ps
    → Within digits2 n b f
    → Moves digits2 n (sweep ps b f)
unfolding sweep
sweep-Moves n [] b f inside within = within
sweep-Moves n (p ∷ ps) b f (here, inside) within =
    Moving-then_with n b f (propagate_elimination (digits2 + 1) p) (λ b' g. sweep ps b' (g || f))
      (propagate_elimination-Moving p here) within (λ b' g. sweep-Moves n ps b' (g || f) inside)

-- A call that goes on as an answer says.
pub on_answer :
    (P : Result → Type 0) (f : Bool) (x y : Result)
    → (f ≡ true → P x)
    → (f ≡ false → P y)
    → P (elim f [ true ↦ x | false ↦ y ])
on_answer P true x y h k = h refl
on_answer P false x y h k = k refl

repeat_while-Moves :
    (body : Board → Result) (fuel n : ℕ) (b : Board) (e : Bool)
    → Moving body
    → left b < fuel
    → Within digits2 n b e
    → Moves digits2 n (repeat_while body fuel b e)
unfolding repeat_while
repeat_while-Moves body zero n b e moving enough within = absurd (omega (arith, enough))
repeat_while-Moves body (suc fuel) n b e moving enough (few, some_left) =
    Moves-then_with digits2 digits2 (left b) n (body b)
      (λ b' f. elim f [ true ↦ repeat_while body fuel b' true | false ↦ ok b' e ]) (moving b)
      (λ b' f (few', fewer).
        on_answer (Moves digits2 n) f (repeat_while body fuel b' true) (ok b' e)
          (λ changed.
            let less : left b' + 1 ≤ left b = ground (arith, changed, fewer) in
            repeat_while-Moves body fuel n b' true moving (omega (arith, less, enough))
              (few', omega (arith, less, some_left)))
          (λ unchanged. (few', omega (arith, fewer, some_left))))

repeated-Moving : (body : Board → Result) → Moving body → Moving (repeated body)
unfolding repeated
repeated-Moving body moving b =
    repeat_while-Moves body (left b + 1) (left b) b false moving (omega arith) (start b)

pub or_else-Moving : (r k : Board → Result) → Moving r → Moving k → Moving (or_else r k)
or_else-Moving r k first second b =
    Moves-then_with digits2 digits2 (left b) (left b) (r b)
      (λ b' e. elim e [ true ↦ ok b' true | false ↦ k b' ]) (first b)
      (λ b' e (few, fewer).
        on_answer (Moves digits2 (left b)) e (ok b' true) (k b')
          (λ changed. (few, ground (arith, changed, fewer)))
          (λ unchanged.
            Moves-le digits2 (left b') digits2 (left b) (k b') (omega arith) (omega (arith, fewer))
              (second b')))

pub propagate_all-Moving : Moving propagate_all_singletons
unfolding propagate_all_singletons
propagate_all-Moving =
    repeated-Moving (λ b. sweep table b false)
      (λ b. sweep-Moves (left b) table b false table-InTable (start b))

pub simple_rules-Moving : Moving simple_rules
unfolding simple_rules
simple_rules-Moving =
    or_else-Moving propagate_all_singletons
      (or_else one_place_in_all_squares (or_else one_place_in_all_rows one_place_in_all_columns))
      propagate_all-Moving
      (or_else-Moving one_place_in_all_squares
        (or_else one_place_in_all_rows one_place_in_all_columns) all_squares-Moving
        (or_else-Moving one_place_in_all_rows one_place_in_all_columns all_rows-Moving
          all_columns-Moving))

simp-Moving : Moving simp_rules
unfolding simp_rules
simp-Moving = repeated-Moving simple_rules simple_rules-Moving

-- A rule that was tried, and the rules behind it.
try_in_turn-next :
    (t : Trial) (ts : List Trial) (b : Board) (r : Result)
    → t.rule b ≡ r
    → Moves digits2 (left b) r
    → Moving (λ b. (try_in_turn ts b).0)
    → Moves digits2 (left b) (try_in_turn (t ∷ ts) b).0
unfolding try_in_turn
try_in_turn-next t ts b (ok b' true) e (few, fewer) rest = rw (try_in_turn, e) (few, fewer)
try_in_turn-next t ts b (ok b' false) e (few, fewer) rest =
    rw (try_in_turn, e)
      (Moves-le digits2 (left b') digits2 (left b) (try_in_turn ts b').0 (omega arith)
        (omega (arith, fewer)) (rest b'))
try_in_turn-next t ts b (raised w b') e h rest = rw (try_in_turn, e) tt
try_in_turn-next t ts b out_of_fuel e h rest = absurd h

pub try_in_turn-Moving :
    (ts : List Trial) → AllTrials Moving ts → Moving (λ b. (try_in_turn ts b).0)
unfolding try_in_turn
try_in_turn-Moving [] all b = start b
try_in_turn-Moving (t ∷ ts) (here, all) b =
    try_in_turn-next t ts b (t.rule b) refl (here b) (try_in_turn-Moving ts all)

pub all_rules-Moving : Moving (λ b. (all_rules b).0)
unfolding all_rules
all_rules-Moving = try_in_turn-Moving trials (
    trials-AllTrials Moving simp-Moving (λ d r c i j k. crossing-Moving d r c)
      (λ d1 d2 r c i j k l. pairs-Moving d1 d2 r c))

-- On every board each of the loops over the rules comes to an end: with an error, or with a board on
-- which no more digits are left, and fewer if the answer is true.
pub strategies-Moving :
    (b : Board)
    → Moves digits2 (left b) (propagate_all_singletons b)
      × Moves digits2 (left b) (simp_rules b)
      × Moves digits2 (left b) (all_rules b).0
      × Moves digits2 (left b) (solve b)
unfolding solve
strategies-Moving b = (
  propagate_all-Moving b,
  simp-Moving b,
  all_rules-Moving b,
  repeated-Moving (λ b. (all_rules b).0) all_rules-Moving b,
)
