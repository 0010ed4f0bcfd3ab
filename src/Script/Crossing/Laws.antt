-- ===== src/Script/Crossing/Laws.antt =====
-- The rules for crossing houses keep the solution of a puzzle.
use gtksudoku.Prelude.{ℕ, ◌+◌, ◌≤◌, ◌≡◌, ◌≢◌, refl, sym, ◌∙◌, Bool, true, false, ◌||◌, arith}
use gtksudoku.Prelude.{List, [], ◌∷◌, map, ◌==◌, ==→≡, count_if, Bool-cases, inl, inr}
use gtksudoku.Constants.{digits}
use gtksudoku.Script.Board.{Place, Board, mark, clear, pairs, square, row, column, Result}
use gtksudoku.Script.Board.Count.{undetermined-bound}
use gtksudoku.Script.Board.Loops.{put-Keeps, mark-clear}
use gtksudoku.Script.Board.Houses.{each_pair}
use gtksudoku.Script.Board.Determine.{Good, digit-range}
use gtksudoku.Script.Solution.{InTable, InSides, Keeps, All, is_solution}
use gtksudoku.Script.Load.{digits2}
use gtksudoku.Script.Rules.Laws.{Once, spread_lem, square-Once, row-Once, column-Once}
use gtksudoku.Script.Crossing.Counts.{
  crossing, count_if-but, count_if-transposed, but-InTable, count_if-absent,
}
use gtksudoku.Script.Crossing.{
  at_cell, but, is_left, taken, erase, eliminate, rows_in_square, columns_in_square, squares_in_row,
  squares_in_column,
}
use gtksudoku.Script.Crossing.{
  row_in_square_at, column_in_square_at, square_for_row_at, square_for_column_at,
}
use gtksudoku.Script.Crossing.{
  one_row_in_square, one_column_in_square, one_square_for_row, one_square_for_column,
}

module _ (sol : Place → ℕ) (solved : is_solution sol ≡ true) (d : ℕ) (low : 1 ≤ d)
    (high : d ≤ digits) where
  is_left-count :
      (qs : List Place) (b : Board)
      → All InTable qs
      → Keeps sol b
      → is_left d qs b ≡ false
      → count_if (λ q. sol q == d) qs ≡ 0
  unfolding is_left
  is_left-count [] b inside keeps h = refl
  is_left-count (q ∷ qs) b (at_q, inside) keeps h =
      let rest = is_left-count qs b inside keeps (ground (arith, h)) in
      elim (Bool-cases (sol q == d)) [
        | inl e ↦
            let found : mark (b q) d ≡ true = rw (← ==→≡ (sol q) d e) (keeps q at_q) in
            absurd (ground (arith, h, found))
        | inr e ↦ ground (arith, e, rest)
      ]

  pub taken-Keeps :
      (q : Place) (b : Board)
      → InTable q
      → (sol q == d) ≡ false
      → Keeps sol b
      → Keeps sol (taken d q b)
  taken-Keeps q b at_q ne keeps =
      let other : d ≢ sol q = λ same_digit. ground (arith, ne, same_digit) in
      let kept : mark (clear d (b q)) (sol q) ≡ true =
        rw (mark-clear (b q) d (sol q) low (digit-range sol solved q at_q).0 other)
          (keeps q at_q) in
      elim (Bool-cases (mark (b q) d)) [
        | inl hit ↦ rw hit (put-Keeps sol b q (clear d (b q)) kept keeps)
        | inr miss ↦ rw miss keeps
      ]

  erase-Keeps :
      (qs : List Place) (b : Board) (e : Bool)
      → All InTable qs
      → All (λ q. (sol q == d) ≡ false) qs
      → Keeps sol b
      → Keeps sol (erase d qs b e).0
  unfolding erase
  erase-Keeps [] b e inside other keeps = keeps
  erase-Keeps (q ∷ qs) b e (at_q, inside) (ne, other) keeps =
      erase-Keeps qs (taken d q b) (e || mark (b q) d) inside other (taken-Keeps q b at_q ne keeps)

  -- Two houses, each of which has the digit once, and what they share.
  eliminate-Good :
      (tests targets : List Place) (shared : ℕ) (b : Board)
      → All InTable tests
      → All InTable targets
      → count_if (λ q. sol q == d) tests + shared ≡ 1
      → count_if (λ q. sol q == d) targets + shared ≡ 1
      → Keeps sol b
      → Good sol digits2 (eliminate d tests targets b)
  unfolding eliminate
  eliminate-Good tests targets shared b in_tests in_targets first second keeps =
      elim (Bool-cases (is_left d tests b)) [
        | inl stop ↦ rw (eliminate, stop) (keeps, undetermined-bound b)
        | inr go ↦
            let empty = is_left-count tests b in_tests keeps go in
            let others =
              count_if-absent (λ q. sol q == d) targets (omega (arith, empty, first, second)) in
            rw (eliminate, go)
              (
                erase-Keeps targets b false in_targets others keeps,
                undetermined-bound (erase d targets b false).0,
              )
      ]

  -- The places of a crossing.
  abbrev Crossed : (Place → Board → Result) → Type 0
  Crossed rule = (p : Place) (b : Board) → InTable p → Keeps sol b → Good sol digits2 (rule p b)

  crossed-Good :
      (g h : ℕ × ℕ → Place) (m n : ℕ) (b : Board)
      → InSides m
      → InSides n
      → Once sol solved d (map g pairs)
      → Once sol solved d (map h pairs)
      → crossing (λ q. sol q == d) g m ≡ crossing (λ q. sol q == d) h n
      → Keeps sol b
      → Good sol digits2 (eliminate d (map g (but m pairs)) (map h (but n pairs)) b)
  crossed-Good g h m n b in_m in_n (in_g, once_g) (in_h, once_h) same_places keeps =
      let f = λ (q : Place). sol q == d in
      eliminate-Good (map g (but m pairs)) (map h (but n pairs)) (crossing f g m) b
        (but-InTable g m pairs in_g) (but-InTable h n pairs in_h)
        (sym (count_if-but f g m in_m) ∙ once_g)
        (omega (arith, count_if-but f h n in_n, once_h, same_places)) keeps

  module _ (p : Place) (inside : InTable p) where
    in_square : Once sol solved d (map (rows_in_square p) pairs)
    unfolding square
    in_square = square-Once sol solved d low high p inside

    in_row : Once sol solved d (map (squares_in_row p) pairs)
    unfolding row
    in_row = row-Once sol solved d low high p inside

    in_column : Once sol solved d (map (squares_in_column p) pairs)
    unfolding column
    in_column = column-Once sol solved d low high p inside

    in_columns : Once sol solved d (map (columns_in_square p) pairs)
    in_columns =
        let (a, b, c, e) = inside in
        (
          each_pair (columns_in_square p) (λ i j h k. (a, b, k, h)),
          count_if-transposed (λ q. sol q == d) (rows_in_square p) ∙ in_square.1,
        )

  row_in_square-Good : Crossed (row_in_square_at d)
  unfolding row_in_square_at
  row_in_square-Good (r1, c1, r2, c2) b (i, j, k, l) keeps =
      let p : Place = (r1, c1, r2, c2) in
      let at : InTable p = (i, j, k, l) in
      crossed-Good (rows_in_square p) (squares_in_row p) r2 c1 b k j (in_square p at) (in_row p at)
        refl keeps

  column_in_square-Good : Crossed (column_in_square_at d)
  unfolding column_in_square_at
  column_in_square-Good (r1, c1, r2, c2) b (i, j, k, l) keeps =
      let p : Place = (r1, c1, r2, c2) in
      let at : InTable p = (i, j, k, l) in
      crossed-Good (columns_in_square p) (squares_in_column p) c2 r1 b l i (in_columns p at)
        (in_column p at) refl keeps

  square_for_row-Good : Crossed (square_for_row_at d)
  unfolding square_for_row_at
  square_for_row-Good (r1, c1, r2, c2) b (i, j, k, l) keeps =
      let p : Place = (r1, c1, r2, c2) in
      let at : InTable p = (i, j, k, l) in
      crossed-Good (squares_in_row p) (rows_in_square p) c1 r2 b j k (in_row p at) (in_square p at)
        refl keeps

  square_for_column-Good : Crossed (square_for_column_at d)
  unfolding square_for_column_at
  square_for_column-Good (r1, c1, r2, c2) b (i, j, k, l) keeps =
      let p : Place = (r1, c1, r2, c2) in
      let at : InTable p = (i, j, k, l) in
      crossed-Good (squares_in_column p) (columns_in_square p) r1 c2 b i l (in_column p at)
        (in_columns p at) refl keeps

  pub at_cell-Good :
      (rule : Place → Board → Result) (r c : ℕ) (b : Board)
      → Crossed rule
      → 1 ≤ r
      → r ≤ digits
      → 1 ≤ c
      → c ≤ digits
      → Keeps sol b
      → Good sol digits2 (at_cell r c rule b)
  unfolding at_cell
  at_cell-Good rule r c b sound low_r high_r low_c high_c keeps =
      let ((r1, r2), found_r, i, k) = spread_lem r low_r high_r in
      let ((c1, c2), found_c, j, l) = spread_lem c low_c high_c in
      rw (at_cell, found_r, found_c) (sound (r1, c1, r2, c2) b (i, j, k, l) keeps)

  -- For a digit, a row and a column from 1 to 9, on a board on which the digits of a solution of the
  -- puzzle are left, each of the four rules for a square that a row or a column crosses returns,
  -- without an error, and leaves a board on which they are still left.
  pub crossing_rules-Good :
      (r c : ℕ) (b : Board)
      → 1 ≤ r
      → r ≤ digits
      → 1 ≤ c
      → c ≤ digits
      → Keeps sol b
      → Good sol digits2 (one_row_in_square d r c b)
        × Good sol digits2 (one_column_in_square d r c b)
        × Good sol digits2 (one_square_for_row d r c b)
        × Good sol digits2 (one_square_for_column d r c b)
  unfolding one_row_in_square one_column_in_square one_square_for_row one_square_for_column
  crossing_rules-Good r c b low_r high_r low_c high_c keeps = (
    at_cell-Good (row_in_square_at d) r c b row_in_square-Good low_r high_r low_c high_c keeps,
    at_cell-Good (column_in_square_at d) r c b column_in_square-Good low_r high_r low_c high_c
        keeps,
    at_cell-Good (square_for_row_at d) r c b square_for_row-Good low_r high_r low_c high_c keeps,
    at_cell-Good (square_for_column_at d) r c b square_for_column-Good low_r high_r low_c high_c
        keeps,
  )
