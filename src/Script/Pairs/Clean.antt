-- ===== src/Script/Pairs/Clean.antt =====
-- The rules for crossing houses and for pairs only take digits away, and determine nothing.
use gtksudoku.Prelude.{ℕ, zero, suc, ◌+◌, ◌-◌, ◌≡◌, refl, Bool, true, false, not, ◌||◌, arith}
use gtksudoku.Prelude.{
  List, [], ◌∷◌, map, ◌==◌, count_if, Bool-cases, Option-cases, inl, inr, get_or,
}
use gtksudoku.Script.Cell.{Cell, only_pair_present}
use gtksudoku.Script.Board.{Place, Board, mark, put, pairs, square, row, column, Result}
use gtksudoku.Script.Board.Clean.{Step, Step-refl, Step-trans, Stepping, put-Step, clear-Step}
use gtksudoku.Script.Board.Entries.{entries-mark}
use gtksudoku.Script.Board.Less.{LessCell}
use gtksudoku.Script.Rules.{spread}
use gtksudoku.Script.Crossing.{
  at_cell, but, is_left, taken, erase, eliminate, rows_in_square, columns_in_square, squares_in_row,
  squares_in_column,
}
use gtksudoku.Script.Crossing.{
  row_in_square_at, column_in_square_at, square_for_row_at, square_for_column_at,
}
use gtksudoku.Script.Crossing.{
  one_row_in_square, one_column_in_square, one_square_for_row, one_square_for_column,
}
use gtksudoku.Script.Pairs.{
  narrow_from, narrow, either, leave_pair, two_places_for_pair, take_pair, same_pair, in_square,
  in_row, in_column,
}
use gtksudoku.Script.Pairs.{
  two_places_for_pair_in_square, two_places_for_pair_in_row, two_places_for_pair_in_column,
}
use gtksudoku.Script.Pairs.{same_pair_in_square, same_pair_in_row, same_pair_in_column}

taken-Step : (d : ℕ) (q : Place) (b : Board) → Step b (taken d q b)
taken-Step d q b = elim (Bool-cases (mark (b q) d)) [
  | inl hit ↦ rw hit (clear-Step b q d)
  | inr miss ↦ rw miss (Step-refl b)
]

erase-Step : (d : ℕ) (qs : List Place) (b : Board) (e : Bool) → Step b (erase d qs b e).0
unfolding erase
erase-Step d [] b e = Step-refl b
erase-Step d (q ∷ qs) b e =
    Step-trans b (taken d q b) (erase d qs (taken d q b) (e || mark (b q) d)).0 (taken-Step d q b)
      (erase-Step d qs (taken d q b) (e || mark (b q) d))

eliminate-Stepping : (d : ℕ) (tests targets : List Place) → Stepping (eliminate d tests targets)
unfolding eliminate
eliminate-Stepping d tests targets b = elim (Bool-cases (is_left d tests b)) [
  | inl stop ↦ rw (eliminate, stop) (Step-refl b)
  | inr go ↦ rw (eliminate, go) (erase-Step d targets b false)
]

-- A rule that gets a place.
pub at_cell-Stepping :
    (r c : ℕ) (rule : Place → Board → Result)
    → ((p : Place) → Stepping (rule p))
    → Stepping (at_cell r c rule)
unfolding at_cell
at_cell-Stepping r c rule steps b = elim (Option-cases (spread r)) [
  | inl e ↦ rw (at_cell, e) tt
  | inr ((i, i'), e) ↦ elim (Option-cases (spread c)) [
    | inl e' ↦ rw (at_cell, e, e') tt
    | inr ((j, j'), e') ↦ rw (at_cell, e, e') (steps (i, j, i', j') b)
  ]
]

-- The four rules for crossing houses.
pub crossing-Stepping :
    (d r c : ℕ)
    → Stepping (one_row_in_square d r c)
      × Stepping (one_column_in_square d r c)
      × Stepping (one_square_for_row d r c)
      × Stepping (one_square_for_column d r c)
unfolding one_row_in_square one_column_in_square one_square_for_row one_square_for_column
    row_in_square_at column_in_square_at square_for_row_at square_for_column_at
crossing-Stepping d r c = (
  at_cell-Stepping r c (row_in_square_at d) (λ (r1, c1, r2, c2).
      let p : Place = (r1, c1, r2, c2) in
      eliminate-Stepping d (map (rows_in_square p) (but r2 pairs))
        (map (squares_in_row p) (but c1 pairs))),
  at_cell-Stepping r c (column_in_square_at d) (λ (r1, c1, r2, c2).
      let p : Place = (r1, c1, r2, c2) in
      eliminate-Stepping d (map (columns_in_square p) (but c2 pairs))
        (map (squares_in_column p) (but r1 pairs))),
  at_cell-Stepping r c (square_for_row_at d) (λ (r1, c1, r2, c2).
      let p : Place = (r1, c1, r2, c2) in
      eliminate-Stepping d (map (squares_in_row p) (but c1 pairs))
        (map (rows_in_square p) (but r2 pairs))),
  at_cell-Stepping r c (square_for_column_at d) (λ (r1, c1, r2, c2).
      let p : Place = (r1, c1, r2, c2) in
      eliminate-Stepping d (map (squares_in_column p) (but r1 pairs))
        (map (columns_in_square p) (but c2 pairs))),
)

narrow_from-less :
    (d1 d2 i k : ℕ) (ms : List Bool)
    → get_or (narrow_from d1 d2 i ms).0 k false ≡ true
    → get_or ms k false ≡ true
unfolding narrow_from
narrow_from-less d1 d2 i k [] h = h
narrow_from-less d1 d2 i zero (m ∷ ms) h = ground (arith, h)
narrow_from-less d1 d2 i (suc k) (m ∷ ms) h =
    let rest = narrow_from-less d1 d2 (i + 1) k ms (ground (arith, h)) in rest

narrow-LessCell : (d1 d2 : ℕ) (x : Cell) → LessCell x (narrow d1 d2 x).0
unfolding narrow
narrow-LessCell d1 d2 x k =
    entries-mark x (narrow d1 d2 x).0 k (narrow_from-less d1 d2 1 (k - 1) x.marks)

narrow-Step : (d1 d2 : ℕ) (q : Place) (b : Board) → Step b (put b q (narrow d1 d2 (b q)).0)
unfolding narrow
narrow-Step d1 d2 q b = put-Step b q (narrow d1 d2 (b q)).0 (narrow-LessCell d1 d2 (b q)) refl

leave_pair-Step :
    (d1 d2 : ℕ) (qs : List Place) (b : Board) (e : Bool) → Step b (leave_pair d1 d2 qs b e).0
unfolding leave_pair
leave_pair-Step d1 d2 [] b e = Step-refl b
leave_pair-Step d1 d2 (q ∷ qs) b e = elim (Bool-cases (either d1 d2 b q)) [
  | inl hit ↦
      let b1 = put b q (narrow d1 d2 (b q)).0 in
      let e1 = e || (narrow d1 d2 (b q)).1 in
      rw (leave_pair, hit)
        (Step-trans b b1 (leave_pair d1 d2 qs b1 e1).0 (narrow-Step d1 d2 q b)
          (leave_pair-Step d1 d2 qs b1 e1))
  | inr miss ↦ rw (leave_pair, miss) (leave_pair-Step d1 d2 qs b e)
]

take_pair-Step :
    (d1 d2 : ℕ) (qs : List Place) (b : Board) (e : Bool) → Step b (take_pair d1 d2 qs b e).0
unfolding take_pair
take_pair-Step d1 d2 [] b e = Step-refl b
take_pair-Step d1 d2 (q ∷ qs) b e =
    let b1 = taken d1 q b in
    let b2 = taken d2 q b1 in
    let e2 = e || mark (b q) d1 || mark (b1 q) d2 in
    elim (Bool-cases (only_pair_present d1 d2 (b q))) [
      | inl only ↦ rw (take_pair, only) (take_pair-Step d1 d2 qs b e)
      | inr more ↦
          rw (take_pair, more)
            (Step-trans b b2 (take_pair d1 d2 qs b2 e2).0
              (Step-trans b b1 b2 (taken-Step d1 q b) (taken-Step d2 q b1))
              (take_pair-Step d1 d2 qs b2 e2))
    ]

-- A rule for a house.
abbrev House : (List Place → Board → Result) → Type 0
House rule = (qs : List Place) → Stepping (rule qs)

two_places-House : (d1 d2 : ℕ) → House (two_places_for_pair d1 d2)
unfolding two_places_for_pair
two_places-House d1 d2 qs b =
    elim (Bool-cases (d1 == d2 || not (count_if (either d1 d2 b) qs == 2))) [
      | inl stop ↦ rw (two_places_for_pair, stop) (Step-refl b)
      | inr go ↦ rw (two_places_for_pair, go) (leave_pair-Step d1 d2 qs b false)
    ]

same_pair-House : (d1 d2 : ℕ) → House (same_pair d1 d2)
unfolding same_pair
same_pair-House d1 d2 qs b =
    let only = λ (q : Place). only_pair_present d1 d2 (b q) in
    elim (Bool-cases (d1 == d2 || not (count_if only qs == 2))) [
      | inl stop ↦ rw (same_pair, stop) (Step-refl b)
      | inr go ↦ rw (same_pair, go) (take_pair-Step d1 d2 qs b false)
    ]

in_square-Stepping :
    (rule : List Place → Board → Result) (r c : ℕ) → House rule → Stepping (in_square rule r c)
unfolding in_square
in_square-Stepping rule r c house b = elim (Option-cases (spread r)) [
  | inl e ↦ rw (in_square, e) tt
  | inr ((i, i'), e) ↦ elim (Option-cases (spread c)) [
    | inl e' ↦ rw (in_square, e, e') tt
    | inr ((j, j'), e') ↦ rw (in_square, e, e') (house (square (i, j, 1, 1)) b)
  ]
]

in_row-Stepping :
    (rule : List Place → Board → Result) (r : ℕ) → House rule → Stepping (in_row rule r)
unfolding in_row
in_row-Stepping rule r house b = elim (Option-cases (spread r)) [
  | inl e ↦ rw (in_row, e) tt
  | inr ((i, j), e) ↦ rw (in_row, e) (house (row (i, 1, j, 1)) b)
]

in_column-Stepping :
    (rule : List Place → Board → Result) (c : ℕ) → House rule → Stepping (in_column rule c)
unfolding in_column
in_column-Stepping rule c house b = elim (Option-cases (spread c)) [
  | inl e ↦ rw (in_column, e) tt
  | inr ((i, j), e) ↦ rw (in_column, e) (house (column (1, i, 1, j)) b)
]

-- The six rules for pairs.
pub pairs-Stepping :
    (d1 d2 r c : ℕ)
    → Stepping (two_places_for_pair_in_square d1 d2 r c)
      × Stepping (two_places_for_pair_in_row d1 d2 r)
      × Stepping (two_places_for_pair_in_column d1 d2 c)
      × Stepping (same_pair_in_square d1 d2 r c)
      × Stepping (same_pair_in_row d1 d2 r)
      × Stepping (same_pair_in_column d1 d2 c)
unfolding two_places_for_pair_in_square two_places_for_pair_in_row two_places_for_pair_in_column
    same_pair_in_square same_pair_in_row same_pair_in_column
pairs-Stepping d1 d2 r c = (
  in_square-Stepping (two_places_for_pair d1 d2) r c (two_places-House d1 d2),
  in_row-Stepping (two_places_for_pair d1 d2) r (two_places-House d1 d2),
  in_column-Stepping (two_places_for_pair d1 d2) c (two_places-House d1 d2),
  in_square-Stepping (same_pair d1 d2) r c (same_pair-House d1 d2),
  in_row-Stepping (same_pair d1 d2) r (same_pair-House d1 d2),
  in_column-Stepping (same_pair d1 d2) c (same_pair-House d1 d2),
)
