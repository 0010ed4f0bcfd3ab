-- ===== src/Script/Load/Laws.antt =====
-- A puzzle that has a solution is read, and the solution is kept.
use gtksudoku.Prelude.{
  ℕ, ◌+◌, ◌<◌, ◌≡◌, refl, sym, ◌∙◌, ap, Bool, true, ◌&&◌, arith, Option, none, some,
}
use gtksudoku.Prelude.{List, [], ◌∷◌, ◌++◌, map, ◌==◌, ==→≡, length, Option-cases, inl, inr}
use gtksudoku.Script.Cell.{singleton, mk_cell}
use gtksudoku.Script.Board.{Place, Board, mk_board, put, mark, pairs, row, determine}
use gtksudoku.Script.Board.Count.{undetermined, undetermined-bound}
use gtksudoku.Script.Board.Houses.{row-InTable, for_digits_lem}
use gtksudoku.Script.Board.Determine.{
  Good, Good-le, Good-then_with, determine-Good, digit-range, narrow-Keeps,
}
use gtksudoku.Script.Solution.{InTable, InSides, Keeps, All, is_solution}
use gtksudoku.Script.Load.{digits2, digit_translator, strip_string, flatten, table, fill, board}

pub All-append : (ps qs : List Place) → All InTable ps → All InTable qs → All InTable (ps ++ qs)
All-append [] qs h k = k
All-append (p ∷ ps) qs (here, h) k = (here, All-append ps qs h k)

unfoldable pub InRows : List (ℕ × ℕ) → Type 0
InRows [] = Unit
InRows (k ∷ ks) = (InSides k.0 × InSides k.1) × InRows ks

table_from :
    (ks : List (ℕ × ℕ))
    → InRows ks
    → All InTable (flatten (map (λ (k : ℕ × ℕ). row (k.0, 1, k.1, 1)) ks))
unfolding flatten InRows
table_from [] h = tt
table_from (k ∷ ks) ((a, b), h) =
    let one : InSides 1 = (omega arith, omega arith) in
    All-append (row (k.0, 1, k.1, 1)) (flatten (map (λ (k : ℕ × ℕ). row (k.0, 1, k.1, 1)) ks))
      (row-InTable (k.0, 1, k.1, 1) (a, one, b, one)) (table_from ks h)

pub pairs-InRows : InRows pairs
unfolding InRows
pairs-InRows =
    let one : InSides 1 = (omega arith, omega arith) in
    let two : InSides 2 = (omega arith, omega arith) in
    let three : InSides 3 = (omega arith, omega arith) in
    (
      (one, one),
      (
        (one, two),
        (
          (one, three),
          (
            (two, one),
            ((two, two), ((two, three), ((three, one), ((three, two), ((three, three), tt))))),
          ),
        ),
      ),
    )

pub table-InTable : All InTable table
unfolding table
table-InTable = table_from pairs pairs-InRows

-- Whether the digits of a text are those of a solution.
abbrev pub fits_item : Option ℕ → ℕ → Bool
fits_item none n = true
fits_item (some d) n = d == n

unfoldable pub fits : (Place → ℕ) → List Place → List ℕ → Bool
fits sol [] cs = true
fits sol (p ∷ ps) [] = true
fits sol (p ∷ ps) (c ∷ cs) = fits_item (digit_translator c) (sol p) && fits sol ps cs

fits_lem :
    (sol : Place → ℕ) (p : Place) (ps : List Place) (c : ℕ) (cs : List ℕ)
    → fits sol (p ∷ ps) (c ∷ cs) ≡ true
    → (fits_item (digit_translator c) (sol p) ≡ true) × (fits sol ps cs ≡ true)
unfolding fits
fits_lem sol p ps c cs h = (ground (arith, h), ground (arith, h))

module _ (sol : Place → ℕ) (solved : is_solution sol ≡ true) where
  fill-Good :
      (ps : List Place) (cs : List ℕ) (b : Board)
      → All InTable ps
      → fits sol ps cs ≡ true
      → Keeps sol b
      → Good sol digits2 (fill ps cs b)
  unfolding fill
  fill-Good [] cs b inside h keeps = (keeps, undetermined-bound b)
  fill-Good (p ∷ ps) [] b inside h keeps = (keeps, undetermined-bound b)
  fill-Good (p ∷ ps) (c ∷ cs) b (here, inside) h keeps =
      let (item, rest) = fits_lem sol p ps c cs h in
      elim (Option-cases (digit_translator c)) [
        | inl e ↦ rw (fill, e) (fill-Good ps cs b inside rest keeps)
        | inr (d, e) ↦
            let item' : fits_item (some d) (sol p) ≡ true =
              sym (ap (λ x. fits_item x (sol p)) e) ∙ item in
            let b' = put b p (singleton (sol p) (b p)).0 in
            let enough : undetermined b' < digits2 + 1 = omega (arith, undetermined-bound b') in
            let run =
              determine-Good sol solved (digits2 + 1) p b' here
                (narrow-Keeps sol solved p b here keeps) enough in
            rw (fill, e, ==→≡ d (sol p) item')
              (Good-then_with sol digits2 (determine (digits2 + 1) p (sol p) b')
                (λ b2 e2. fill ps cs b2)
                (Good-le sol (undetermined b') digits2 (determine (digits2 + 1) p (sol p) b')
                  (undetermined-bound b') run)
                (λ b2 e2 keeps2 count2. fill-Good ps cs b2 inside rest keeps2))
      ]

  -- On a fresh board every digit is left.
  pub mk_board-Keeps : Keeps sol mk_board
  unfolding mk_board mk_cell mark
  mk_board-Keeps p inside =
      let (one, nine) = digit-range sol solved p inside in
      for_digits_lem (λ d. mark mk_cell d) (sol p) refl one nine

  -- If a text has 81 digits and dots, and its digits are those of a solution of the puzzle, then it is
  -- read without an error, and on the board that is made the digits of the solution are left. The
  -- fuel of the model suffices.
  pub board-Good :
      (s : List ℕ)
      → length (strip_string s) ≡ digits2
      → fits sol table (strip_string s) ≡ true
      → Good sol digits2 (board s)
  unfolding board
  board-Good s full h =
      rw (board, full) (fill-Good table (strip_string s) mk_board table-InTable h mk_board-Keeps)
