-- ===== src/Script/Rules/Laws.antt =====
-- The basic rules keep the solution of a puzzle.
use gtksudoku.Prelude.{ℕ, zero, suc, ◌+◌, ◌*◌, ◌≤◌, ◌≡◌, refl, Bool, true, false, ◌||◌, arith, some}
use gtksudoku.Prelude.{List, [], ◌∷◌, ◌==◌, ==→≡, count_if, Bool-cases, inl, inr}
use gtksudoku.Constants.{digits}
use gtksudoku.Script.Board.{
  Place, Board, mark, square, row, column, determine, Result, ok, raised, out_of_fuel, then_with,
}
use gtksudoku.Script.Board.Count.{undetermined, undetermined-bound}
use gtksudoku.Script.Board.Houses.{square-InTable, row-InTable, column-InTable, is_full_lem}
use gtksudoku.Script.Board.Less.{Less, Ends, determine-Less}
use gtksudoku.Script.Board.Determine.{Good, Good-le, Good-then_with, determine-Good}
use gtksudoku.Script.Solution.{InTable, InSides, Keeps, All, is_solution, is_solution_lem, is_good}
use gtksudoku.Script.Load.{digits2}
use gtksudoku.Script.Rules.Counts.{count_if-same}
use gtksudoku.Script.Rules.{
  spread, settle, one_place, one_place_in_square, one_place_in_row, one_place_in_column,
}
use gtksudoku.Script.Rules.{
  for_to, one_place_in_all_squares, one_place_in_all_rows, one_place_in_all_columns,
}

-- The digit is left in no cell but the one of the solution.
abbrev Settled : (Place → ℕ) → ℕ → Board → List Place → Type 0
Settled sol d b qs = All (λ q. mark (b q) d ≡ true → (sol q == d) ≡ true) qs

Settled-Less :
    (sol : Place → ℕ) (d : ℕ) (b b' : Board) (qs : List Place)
    → Less b b'
    → Settled sol d b qs
    → Settled sol d b' qs
Settled-Less sol d b b' [] less h = tt
Settled-Less sol d b b' (q ∷ qs) less (h, hs) =
    (λ e. h (less q d e), Settled-Less sol d b b' qs less hs)

Good-continues :
    (sol : Place → ℕ) (n : ℕ) (a : Board) (r : Result) (k : Board → Bool → Result)
    → Good sol n r
    → Ends a r
    → ((b : Board) (e : Bool) → Keeps sol b → Less a b → Good sol n (k b e))
    → Good sol n (then_with r k)
Good-continues sol n a (ok b e) k (keeps, count) less h = h b e keeps less
Good-continues sol n a (raised w b) k g less h = absurd g
Good-continues sol n a out_of_fuel k g less h = absurd g

-- An index of the table is spread to a pair of coordinates.
pub spread_lem :
    (k : ℕ) → 1 ≤ k → k ≤ digits → (r : ℕ × ℕ) × (spread k ≡ some r) × InSides r.0 × InSides r.1
unfolding spread
spread_lem zero p q = absurd (omega (arith, p))
spread_lem (suc zero) p q = ((1, 1), refl, (omega arith, omega arith), (omega arith, omega arith))
spread_lem (suc (suc zero)) p q =
    ((1, 2), refl, (omega arith, omega arith), (omega arith, omega arith))
spread_lem (suc (suc (suc zero))) p q =
    ((1, 3), refl, (omega arith, omega arith), (omega arith, omega arith))
spread_lem (suc (suc (suc (suc zero)))) p q =
    ((2, 1), refl, (omega arith, omega arith), (omega arith, omega arith))
spread_lem (suc (suc (suc (suc (suc zero))))) p q =
    ((2, 2), refl, (omega arith, omega arith), (omega arith, omega arith))
spread_lem (suc (suc (suc (suc (suc (suc zero)))))) p q =
    ((2, 3), refl, (omega arith, omega arith), (omega arith, omega arith))
spread_lem (suc (suc (suc (suc (suc (suc (suc zero))))))) p q =
    ((3, 1), refl, (omega arith, omega arith), (omega arith, omega arith))
spread_lem (suc (suc (suc (suc (suc (suc (suc (suc zero)))))))) p q =
    ((3, 2), refl, (omega arith, omega arith), (omega arith, omega arith))
spread_lem (suc (suc (suc (suc (suc (suc (suc (suc (suc zero))))))))) p q =
    ((3, 3), refl, (omega arith, omega arith), (omega arith, omega arith))
spread_lem (suc (suc (suc (suc (suc (suc (suc (suc (suc (suc n)))))))))) p q =
    absurd (omega (arith, q))

module _ (sol : Place → ℕ) (solved : is_solution sol ≡ true) where
  settle-Good :
      (d : ℕ) (qs : List Place) (b : Board) (e : Bool)
      → All InTable qs
      → Keeps sol b
      → Settled sol d b qs
      → Good sol digits2 (settle d qs b e)
  unfolding settle
  settle-Good d [] b e inside keeps settled = (keeps, undetermined-bound b)
  settle-Good d (q ∷ qs) b e (here, inside) keeps (digit, settled) =
      elim (Bool-cases (mark (b q) d)) [
        | inl hit ↦
            let run =
              determine-Good sol solved (digits2 + 1) q b here keeps
                (omega (arith, undetermined-bound b)) in
            let run' : Good sol (undetermined b) (determine (digits2 + 1) q d b) =
              rw (← ==→≡ (sol q) d (digit hit)) run in
            rw (settle, hit)
              (Good-continues sol digits2 b (determine (digits2 + 1) q d b)
                (λ b' f. settle d qs b' (f || e))
                (Good-le sol (undetermined b) digits2 (determine (digits2 + 1) q d b)
                  (undetermined-bound b) run')
                (determine-Less (digits2 + 1) q d b)
                (λ b' f keeps' less.
                  settle-Good d qs b' (f || e) inside keeps'
                    (Settled-Less sol d b b' qs less settled)))
        | inr miss ↦ rw (settle, miss) (settle-Good d qs b e inside keeps settled)
      ]

  one_place-Good :
      (d : ℕ) (qs : List Place) (b : Board)
      → All InTable qs
      → count_if (λ q. sol q == d) qs ≡ 1
      → Keeps sol b
      → Good sol digits2 (one_place d qs b)
  unfolding one_place
  one_place-Good d qs b inside full keeps =
      elim (Bool-cases (count_if (λ q. mark (b q) d) qs == 1)) [
        | inr other ↦ rw (one_place, other) (keeps, undetermined-bound b)
        | inl one ↦
            rw (one_place, one)
              (settle-Good d qs b false inside keeps (
                count_if-same (λ q. sol q == d) (λ q. mark (b q) d) qs inside
                  (λ q here h. rw (← ==→≡ (sol q) d h) (keeps q here))
                  (omega (arith, full, ==→≡ (count_if (λ q. mark (b q) d) qs) 1 one))))
      ]

  -- A house of the table holds each digit once.
  abbrev pub Once : ℕ → List Place → Type 0
  Once d qs = All InTable qs × (count_if (λ q. sol q == d) qs ≡ 1)

  module _ (d : ℕ) (one : 1 ≤ d) (nine : d ≤ digits) (p : Place) (inside : InTable p) where
    pub square-Once : Once d (square p)
    unfolding is_good
    square-Once =
        let good = is_solution_lem sol p solved inside in
        (square-InTable p inside, is_full_lem sol (square p) d (ground (arith, good)) one nine)

    pub row-Once : Once d (row p)
    unfolding is_good
    row-Once =
        let good = is_solution_lem sol p solved inside in
        (row-InTable p inside, is_full_lem sol (row p) d (ground (arith, good)) one nine)

    pub column-Once : Once d (column p)
    unfolding is_good
    column-Once =
        let good = is_solution_lem sol p solved inside in
        (column-InTable p inside, is_full_lem sol (column p) d (ground (arith, good)) one nine)

  -- A rule for a digit and an index of the table.
  abbrev Rule : (ℕ → Board → Result) → ℕ → Type 0
  Rule body n = (i : ℕ) (b : Board) → 1 ≤ i → i ≤ n → Keeps sol b → Good sol digits2 (body i b)

  for_to-Good :
      (n : ℕ) (body : ℕ → Board → Result) (b : Board)
      → Rule body n
      → Keeps sol b
      → Good sol digits2 (for_to n body b)
  unfolding for_to
  for_to-Good zero body b rule keeps = (keeps, undetermined-bound b)
  for_to-Good (suc n) body b rule keeps =
      Good-then_with sol digits2 (for_to n body b)
        (λ b1 e1. then_with (body (suc n) b1) (λ b2 e2. ok b2 (e2 || e1)))
        (for_to-Good n body b (λ i x p q. rule i x p (omega (arith, q))) keeps)
        (λ b1 e1 keeps1 count1.
          Good-then_with sol digits2 (body (suc n) b1) (λ b2 e2. ok b2 (e2 || e1))
            (rule (suc n) b1 (omega arith) (omega arith) keeps1)
            (λ b2 e2 keeps2 count2. (keeps2, count2)))

  module _ (d : ℕ) (one : 1 ≤ d) (nine : d ≤ digits) where
    pub row-Rule : Rule (one_place_in_row d) digits
    unfolding one_place_in_row
    row-Rule r b low high keeps =
        let ((i, j), e, a, c) = spread_lem r low high in
        let first : InSides 1 = (omega arith, omega arith) in
        let (inside, once) = row-Once d one nine (i, 1, j, 1) (a, first, c, first) in
        rw (one_place_in_row, e) (one_place-Good d (row (i, 1, j, 1)) b inside once keeps)

    pub column-Rule : Rule (one_place_in_column d) digits
    unfolding one_place_in_column
    column-Rule c b low high keeps =
        let ((i, j), e, a, k) = spread_lem c low high in
        let first : InSides 1 = (omega arith, omega arith) in
        let (inside, once) = column-Once d one nine (1, i, 1, j) (first, a, first, k) in
        rw (one_place_in_column, e) (one_place-Good d (column (1, i, 1, j)) b inside once keeps)

    pub square-Rule : (r : ℕ) → 1 ≤ r → r ≤ digits → Rule (one_place_in_square d r) digits
    unfolding one_place_in_square
    square-Rule r low high c b low' high' keeps =
        let ((i, i'), e, a, a') = spread_lem r low high in
        let ((j, j'), e', k, k') = spread_lem c low' high' in
        let first : InSides 1 = (omega arith, omega arith) in
        let (inside, once) = square-Once d one nine (i, j, 1, 1) (a, k, first, first) in
        rw (one_place_in_square, e, e') (one_place-Good d (square (i, j, 1, 1)) b inside once keeps)

  -- On a board on which the digits of a solution of the puzzle are left, the rules for all squares,
  -- all rows and all columns return, without an error, and each leaves a board on which they are
  -- still left.
  pub one_place_in_all-Good :
      (b : Board)
      → Keeps sol b
      → Good sol digits2 (one_place_in_all_squares b)
        × Good sol digits2 (one_place_in_all_rows b)
        × Good sol digits2 (one_place_in_all_columns b)
  unfolding one_place_in_all_squares one_place_in_all_rows one_place_in_all_columns
  one_place_in_all-Good b keeps = (
    for_to-Good digits
        (λ d. for_to 3 (λ r1. for_to 3 (λ c1. one_place_in_square d (r1 * 3) (c1 * 3)))) b
        (λ d b1 one nine.
          for_to-Good 3 (λ r1. for_to 3 (λ c1. one_place_in_square d (r1 * 3) (c1 * 3))) b1
            (λ r1 b2 low high.
              for_to-Good 3 (λ c1. one_place_in_square d (r1 * 3) (c1 * 3)) b2
                (λ c1 b3 low' high'.
                  square-Rule d one nine (r1 * 3) (omega (arith, low)) (omega (arith, high))
                    (c1 * 3) b3 (omega (arith, low')) (omega (arith, high')))))
        keeps,
    for_to-Good digits (λ d. for_to digits (one_place_in_row d)) b
        (λ d b1 one nine. for_to-Good digits (one_place_in_row d) b1 (row-Rule d one nine)) keeps,
    for_to-Good digits (λ d. for_to digits (one_place_in_column d)) b
        (λ d b1 one nine. for_to-Good digits (one_place_in_column d) b1 (column-Rule d one nine))
        keeps,
  )
