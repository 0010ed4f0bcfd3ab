-- ===== src/Script/Strategies/Advanced.antt =====
-- The rules for crossing houses and for pairs come to an end on every board.
use gtksudoku.Prelude.{ℕ, ◌+◌, ◌≤◌, ◌≡◌, Bool, false, not, ◌||◌, arith}
use gtksudoku.Prelude.{List, [], ◌∷◌, ◌==◌, map, count_if, Bool-cases, Option-cases, inl, inr}
use gtksudoku.Script.Cell.{unknowns, unknowns_from, only_pair_present}
use gtksudoku.Script.Board.{Place, Board, mark, put, pairs, square, row, column, Result}
use gtksudoku.Script.Board.Count.{left}
use gtksudoku.Script.Board.Houses.{square-InTable, row-InTable, column-InTable, each_pair}
use gtksudoku.Script.Board.Progress.{one, Within, put-Within, clear-Within}
use gtksudoku.Script.Solution.{InTable, InSides, All}
use gtksudoku.Script.Load.{digits2}
use gtksudoku.Script.Rules.{spread}
use gtksudoku.Script.Crossing.{
  at_cell, but, is_left, taken, erase, eliminate, rows_in_square, columns_in_square, squares_in_row,
  squares_in_column,
}
use gtksudoku.Script.Crossing.{
  row_in_square_at, column_in_square_at, square_for_row_at, square_for_column_at,
}
use gtksudoku.Script.Crossing.{
  one_row_in_square, one_column_in_square, one_square_for_row, one_square_for_column,
}
use gtksudoku.Script.Crossing.Counts.{but-InTable}
use gtksudoku.Script.Pairs.{
  narrow_from, narrow, either, leave_pair, two_places_for_pair, take_pair, same_pair, in_square,
  in_row, in_column,
}
use gtksudoku.Script.Pairs.{
  two_places_for_pair_in_square, two_places_for_pair_in_row, two_places_for_pair_in_column,
}
use gtksudoku.Script.Pairs.{same_pair_in_square, same_pair_in_row, same_pair_in_column}
use gtksudoku.Script.Strategies.Basics.{Moving, start, spread-InSides}

taken-Within :
    (n d : ℕ) (q : Place) (b : Board) (e : Bool)
    → InTable q
    → Within digits2 n b e
    → Within digits2 n (taken d q b) (e || mark (b q) d)
taken-Within n d q b e inside within = elim (Bool-cases (mark (b q) d)) [
  | inl hit ↦ rw hit (clear-Within digits2 n d q b e inside hit within)
  | inr miss ↦ let e' : (e || false) ≡ e = ground arith in rw (miss, e') within
]

erase-Within :
    (n d : ℕ) (qs : List Place) (b : Board) (e : Bool)
    → All InTable qs
    → Within digits2 n b e
    → Within digits2 n (erase d qs b e).0 (erase d qs b e).1
unfolding erase
erase-Within n d [] b e inside within = within
erase-Within n d (q ∷ qs) b e (here, inside) within =
    erase-Within n d qs (taken d q b) (e || mark (b q) d) inside
      (taken-Within n d q b e here within)

eliminate-Moving :
    (d : ℕ) (tests targets : List Place) → All InTable targets → Moving (eliminate d tests targets)
unfolding eliminate
eliminate-Moving d tests targets inside b = elim (Bool-cases (is_left d tests b)) [
  | inl stop ↦ rw (eliminate, stop) (start b)
  | inr go ↦ rw (eliminate, go) (erase-Within (left b) d targets b false inside (start b))
]

-- A rule that gets a place.
pub at_cell-Moving :
    (r c : ℕ) (rule : Place → Board → Result)
    → ((p : Place) → InTable p → Moving (rule p))
    → Moving (at_cell r c rule)
unfolding at_cell
at_cell-Moving r c rule moving b = elim (Option-cases (spread r)) [
  | inl e ↦ rw (at_cell, e) tt
  | inr ((i, i'), e) ↦ elim (Option-cases (spread c)) [
    | inl e' ↦ rw (at_cell, e, e') tt
    | inr ((j, j'), e') ↦
        let (a, a') = spread-InSides r (i, i') e in
        let (k, k') = spread-InSides c (j, j') e' in
        rw (at_cell, e, e') (moving (i, j, i', j') (a, k, a', k') b)
  ]
]

but_InTable :
    (g : ℕ × ℕ → Place) (n : ℕ)
    → ((i j : ℕ) → InSides i → InSides j → InTable (g (i, j)))
    → All InTable (map g (but n pairs))
but_InTable g n h = but-InTable g n pairs (each_pair g h)

-- The four rules for crossing houses.
pub crossing-Moving :
    (d r c : ℕ)
    → Moving (one_row_in_square d r c)
      × Moving (one_column_in_square d r c)
      × Moving (one_square_for_row d r c)
      × Moving (one_square_for_column d r c)
unfolding one_row_in_square one_column_in_square one_square_for_row one_square_for_column
    row_in_square_at column_in_square_at square_for_row_at square_for_column_at
crossing-Moving d r c = (
  at_cell-Moving r c (row_in_square_at d) (λ (r1, c1, r2, c2) (a, b, e, f).
      let p : Place = (r1, c1, r2, c2) in
      eliminate-Moving d (map (rows_in_square p) (but r2 pairs))
        (map (squares_in_row p) (but c1 pairs))
        (but_InTable (squares_in_row p) c1 (λ i j h k. (a, h, e, k)))),
  at_cell-Moving r c (column_in_square_at d) (λ (r1, c1, r2, c2) (a, b, e, f).
      let p : Place = (r1, c1, r2, c2) in
      eliminate-Moving d (map (columns_in_square p) (but c2 pairs))
        (map (squares_in_column p) (but r1 pairs))
        (but_InTable (squares_in_column p) r1 (λ i j h k. (h, b, k, f)))),
  at_cell-Moving r c (square_for_row_at d) (λ (r1, c1, r2, c2) (a, b, e, f).
      let p : Place = (r1, c1, r2, c2) in
      eliminate-Moving d (map (squares_in_row p) (but c1 pairs))
        (map (rows_in_square p) (but r2 pairs))
        (but_InTable (rows_in_square p) r2 (λ i j h k. (a, b, h, k)))),
  at_cell-Moving r c (square_for_column_at d) (λ (r1, c1, r2, c2) (a, b, e, f).
      let p : Place = (r1, c1, r2, c2) in
      eliminate-Moving d (map (squares_in_column p) (but r1 pairs))
        (map (columns_in_square p) (but c2 pairs))
        (but_InTable (columns_in_square p) c2 (λ i j h k. (a, b, k, h)))),
)

unknowns_from-narrow_from :
    (d1 d2 i : ℕ) (ms : List Bool)
    → unknowns_from (narrow_from d1 d2 i ms).0 + one (narrow_from d1 d2 i ms).1 ≤ unknowns_from ms
unfolding unknowns_from narrow_from
unknowns_from-narrow_from d1 d2 i [] = omega arith
unknowns_from-narrow_from d1 d2 i (m ∷ ms) =
    let rest = unknowns_from-narrow_from d1 d2 (i + 1) ms in ground (arith, rest)

narrow-Within :
    (n d1 d2 : ℕ) (q : Place) (b : Board) (e : Bool)
    → InTable q
    → Within digits2 n b e
    → Within digits2 n (put b q (narrow d1 d2 (b q)).0) (e || (narrow d1 d2 (b q)).1)
unfolding narrow unknowns
narrow-Within n d1 d2 q b e inside within =
    put-Within digits2 n b q (narrow d1 d2 (b q)).0 e (narrow d1 d2 (b q)).1 inside (omega arith)
      (unknowns_from-narrow_from d1 d2 1 (b q).marks) within

leave_pair-Within :
    (n d1 d2 : ℕ) (qs : List Place) (b : Board) (e : Bool)
    → All InTable qs
    → Within digits2 n b e
    → Within digits2 n (leave_pair d1 d2 qs b e).0 (leave_pair d1 d2 qs b e).1
unfolding leave_pair
leave_pair-Within n d1 d2 [] b e inside within = within
leave_pair-Within n d1 d2 (q ∷ qs) b e (here, inside) within =
    elim (Bool-cases (either d1 d2 b q)) [
      | inl hit ↦
          rw (leave_pair, hit)
            (leave_pair-Within n d1 d2 qs (put b q (narrow d1 d2 (b q)).0)
              (e || (narrow d1 d2 (b q)).1) inside (narrow-Within n d1 d2 q b e here within))
      | inr miss ↦ rw (leave_pair, miss) (leave_pair-Within n d1 d2 qs b e inside within)
    ]

take_pair-Within :
    (n d1 d2 : ℕ) (qs : List Place) (b : Board) (e : Bool)
    → All InTable qs
    → Within digits2 n b e
    → Within digits2 n (take_pair d1 d2 qs b e).0 (take_pair d1 d2 qs b e).1
unfolding take_pair
take_pair-Within n d1 d2 [] b e inside within = within
take_pair-Within n d1 d2 (q ∷ qs) b e (here, inside) within =
    let b1 = taken d1 q b in
    let e1 = e || mark (b q) d1 in
    let e2 = e || mark (b q) d1 || mark (b1 q) d2 in
    elim (Bool-cases (only_pair_present d1 d2 (b q))) [
      | inl only ↦ rw (take_pair, only) (take_pair-Within n d1 d2 qs b e inside within)
      | inr more ↦
          let within1 = taken-Within n d1 q b e here within in
          let within2 = taken-Within n d2 q b1 e1 here within1 in
          let same_answer : (e1 || mark (b1 q) d2) ≡ e2 = ground arith in
          let within3 : Within digits2 n (taken d2 q b1) e2 = rw (← same_answer) within2 in
          rw (take_pair, more) (take_pair-Within n d1 d2 qs (taken d2 q b1) e2 inside within3)
    ]

-- A rule for a house.
abbrev House : (List Place → Board → Result) → Type 0
House rule = (qs : List Place) → All InTable qs → Moving (rule qs)

two_places-House : (d1 d2 : ℕ) → House (two_places_for_pair d1 d2)
unfolding two_places_for_pair
two_places-House d1 d2 qs inside b =
    elim (Bool-cases (d1 == d2 || not (count_if (either d1 d2 b) qs == 2))) [
      | inl stop ↦ rw (two_places_for_pair, stop) (start b)
      | inr go ↦
          rw (two_places_for_pair, go)
            (leave_pair-Within (left b) d1 d2 qs b false inside (start b))
    ]

same_pair-House : (d1 d2 : ℕ) → House (same_pair d1 d2)
unfolding same_pair
same_pair-House d1 d2 qs inside b =
    let only = λ (q : Place). only_pair_present d1 d2 (b q) in
    elim (Bool-cases (d1 == d2 || not (count_if only qs == 2))) [
      | inl stop ↦ rw (same_pair, stop) (start b)
      | inr go ↦ rw (same_pair, go) (take_pair-Within (left b) d1 d2 qs b false inside (start b))
    ]

first : InSides 1
first = (omega arith, omega arith)

in_square-Moving :
    (rule : List Place → Board → Result) (r c : ℕ) → House rule → Moving (in_square rule r c)
unfolding in_square
in_square-Moving rule r c house b = elim (Option-cases (spread r)) [
  | inl e ↦ rw (in_square, e) tt
  | inr ((i, i'), e) ↦ elim (Option-cases (spread c)) [
    | inl e' ↦ rw (in_square, e, e') tt
    | inr ((j, j'), e') ↦
        let p : Place = (i, j, 1, 1) in
        let at : InTable p =
          ((spread-InSides r (i, i') e).0, (spread-InSides c (j, j') e').0, first, first) in
        rw (in_square, e, e') (house (square p) (square-InTable p at) b)
  ]
]

in_row-Moving : (rule : List Place → Board → Result) (r : ℕ) → House rule → Moving (in_row rule r)
unfolding in_row
in_row-Moving rule r house b = elim (Option-cases (spread r)) [
  | inl e ↦ rw (in_row, e) tt
  | inr ((i, j), e) ↦
      let (a, c) = spread-InSides r (i, j) e in
      let p : Place = (i, 1, j, 1) in
      rw (in_row, e) (house (row p) (row-InTable p (a, first, c, first)) b)
]

in_column-Moving :
    (rule : List Place → Board → Result) (c : ℕ) → House rule → Moving (in_column rule c)
unfolding in_column
in_column-Moving rule c house b = elim (Option-cases (spread c)) [
  | inl e ↦ rw (in_column, e) tt
  | inr ((i, j), e) ↦
      let (a, k) = spread-InSides c (i, j) e in
      let p : Place = (1, i, 1, j) in
      rw (in_column, e) (house (column p) (column-InTable p (first, a, first, k)) b)
]

-- The six rules for pairs.
pub pairs-Moving :
    (d1 d2 r c : ℕ)
    → Moving (two_places_for_pair_in_square d1 d2 r c)
      × Moving (two_places_for_pair_in_row d1 d2 r)
      × Moving (two_places_for_pair_in_column d1 d2 c)
      × Moving (same_pair_in_square d1 d2 r c)
      × Moving (same_pair_in_row d1 d2 r)
      × Moving (same_pair_in_column d1 d2 c)
unfolding two_places_for_pair_in_square two_places_for_pair_in_row two_places_for_pair_in_column
    same_pair_in_square same_pair_in_row same_pair_in_column
pairs-Moving d1 d2 r c = (
  in_square-Moving (two_places_for_pair d1 d2) r c (two_places-House d1 d2),
  in_row-Moving (two_places_for_pair d1 d2) r (two_places-House d1 d2),
  in_column-Moving (two_places_for_pair d1 d2) c (two_places-House d1 d2),
  in_square-Moving (same_pair d1 d2) r c (same_pair-House d1 d2),
  in_row-Moving (same_pair d1 d2) r (same_pair-House d1 d2),
  in_column-Moving (same_pair d1 d2) c (same_pair-House d1 d2),
)
