-- ===== src/Script/Strategies/Basics.antt =====
-- The basic rules come to an end on every board.
use mathlib.Core.Option.{some-injective}
use gtksudoku.Prelude.{ℕ, zero, suc, ◌+◌, ◌*◌, ◌≡◌, sym, ◌∙◌, Bool, false, ◌||◌, arith, some}
use gtksudoku.Prelude.{List, [], ◌∷◌, ◌==◌, ltb, count_if, Bool-cases, Option-cases, inl, inr}
use gtksudoku.Constants.{digits}
use gtksudoku.Script.Board.{
  Place, Board, mark, square, row, column, determine, Result, ok, then_with,
}
use gtksudoku.Script.Board.Count.{left, undetermined, undetermined-bound}
use gtksudoku.Script.Board.Houses.{square-InTable, row-InTable, column-InTable}
use gtksudoku.Script.Board.Progress.{
  one-or, Within, Moves, Moves-le, Moves-then_with, determine-Moves,
}
use gtksudoku.Script.Solution.{InTable, InSides, All}
use gtksudoku.Script.Load.{digits2}
use gtksudoku.Script.Rules.{
  spread, settle, one_place, one_place_in_square, one_place_in_row, one_place_in_column,
}
use gtksudoku.Script.Rules.{
  for_to, one_place_in_all_squares, one_place_in_all_rows, one_place_in_all_columns,
}
use gtksudoku.Script.Rules.Laws.{spread_lem}

-- A rule that comes to an end, and takes a digit away if it answers true.
abbrev pub Moving : (Board → Result) → Type 0
Moving rule = (b : Board) → Moves digits2 (left b) (rule b)

-- A rule that goes on from a board.
pub Moving-then_with :
    (n : ℕ) (b : Board) (e : Bool) (rule : Board → Result) (k : Board → Bool → Result)
    → Moving rule
    → Within digits2 n b e
    → ((b' : Board) (f : Bool) → Within digits2 n b' (f || e) → Moves digits2 n (k b' f))
    → Moves digits2 n (then_with (rule b) k)
Moving-then_with n b e rule k moving within next =
    Moves-then_with digits2 digits2 (left b) n (rule b) k (moving b)
      (λ b' f (few, fewer). next b' f (few, omega (arith, fewer, within.1, one-or f e)))

pub start : (b : Board) → Within digits2 (left b) b false
start b = (undetermined-bound b, omega arith)

determine-Moving : (p : Place) (d : ℕ) → InTable p → Moving (determine (digits2 + 1) p d)
determine-Moving p d inside b =
    let bound = undetermined-bound b in
    Moves-le (undetermined b) (left b) digits2 (left b) (determine (digits2 + 1) p d b) bound
      (omega arith) (determine-Moves (digits2 + 1) p d b inside (omega (arith, bound)))

settle-Moves :
    (n d : ℕ) (qs : List Place) (b : Board) (e : Bool)
    → All InTable qs
    → Within digits2 n b e
    → Moves digits2 n (settle d qs b e)
unfolding settle
settle-Moves n d [] b e inside within = within
settle-Moves n d (q ∷ qs) b e (here, inside) within = elim (Bool-cases (mark (b q) d)) [
  | inl hit ↦
      rw (settle, hit)
        (Moving-then_with n b e (determine (digits2 + 1) q d) (λ b' f. settle d qs b' (f || e))
          (determine-Moving q d here) within (λ b' f. settle-Moves n d qs b' (f || e) inside))
  | inr miss ↦ rw (settle, miss) (settle-Moves n d qs b e inside within)
]

one_place-Moving : (d : ℕ) (qs : List Place) → All InTable qs → Moving (one_place d qs)
unfolding one_place
one_place-Moving d qs inside b = elim (Bool-cases (count_if (λ q. mark (b q) d) qs == 1)) [
  | inl e ↦ rw (one_place, e) (settle-Moves (left b) d qs b false inside (start b))
  | inr e ↦ rw (one_place, e) (start b)
]

-- What `spread` answers is inside of the table.
pub spread-InSides : (k : ℕ) (r : ℕ × ℕ) → spread k ≡ some r → InSides r.0 × InSides r.1
unfolding spread
spread-InSides k r h = elim (Bool-cases (ltb k 1 || ltb digits k)) [
  | inl out ↦ absurd (ground (arith, out, h))
  | inr inside ↦
      let (s, e, a, c) = spread_lem k (ground (arith, inside)) (ground (arith, inside)) in
      let same_pair : s ≡ r = some-injective s r (sym e ∙ h) in rw (← same_pair) (a, c)
]

first : InSides 1
first = (omega arith, omega arith)

pub row-Moving : (d r : ℕ) → Moving (one_place_in_row d r)
unfolding one_place_in_row
row-Moving d r b = elim (Option-cases (spread r)) [
  | inl e ↦ rw (one_place_in_row, e) tt
  | inr ((i, j), e) ↦
      let (a, c) = spread-InSides r (i, j) e in
      let p : Place = (i, 1, j, 1) in
      rw (one_place_in_row, e) (one_place-Moving d (row p) (row-InTable p (a, first, c, first)) b)
]

pub column-Moving : (d c : ℕ) → Moving (one_place_in_column d c)
unfolding one_place_in_column
column-Moving d c b = elim (Option-cases (spread c)) [
  | inl e ↦ rw (one_place_in_column, e) tt
  | inr ((i, j), e) ↦
      let (a, k) = spread-InSides c (i, j) e in
      let p : Place = (1, i, 1, j) in
      rw (one_place_in_column, e)
        (one_place-Moving d (column p) (column-InTable p (first, a, first, k)) b)
]

pub square-Moving : (d r c : ℕ) → Moving (one_place_in_square d r c)
unfolding one_place_in_square
square-Moving d r c b = elim (Option-cases (spread r)) [
  | inl e ↦ rw (one_place_in_square, e) tt
  | inr ((i, i'), e) ↦ elim (Option-cases (spread c)) [
    | inl e' ↦ rw (one_place_in_square, e, e') tt
    | inr ((j, j'), e') ↦
        let p : Place = (i, j, 1, 1) in
        let at : InTable p =
          ((spread-InSides r (i, i') e).0, (spread-InSides c (j, j') e').0, first, first) in
        rw (one_place_in_square, e, e') (one_place-Moving d (square p) (square-InTable p at) b)
  ]
]

for_to-Moving :
    (n : ℕ) (body : ℕ → Board → Result) → ((i : ℕ) → Moving (body i)) → Moving (for_to n body)
unfolding for_to
for_to-Moving zero body moving b = start b
for_to-Moving (suc n) body moving b =
    Moving-then_with (left b) b false (for_to n body)
      (λ b1 e1. then_with (body (suc n) b1) (λ b2 e2. ok b2 (e2 || e1)))
      (for_to-Moving n body moving) (start b)
      (λ b1 e1 within1.
        Moving-then_with (left b) b1 e1 (body (suc n)) (λ b2 e2. ok b2 (e2 || e1)) (moving (suc n))
          (let e : (e1 || false) ≡ e1 = ground arith in rw (← e) within1)
          (λ b2 e2 within2. within2))

pub all_squares-Moving : Moving one_place_in_all_squares
unfolding one_place_in_all_squares
all_squares-Moving =
    for_to-Moving digits
      (λ d. for_to 3 (λ r. for_to 3 (λ c. one_place_in_square d (r * 3) (c * 3))))
      (λ d.
        for_to-Moving 3 (λ r. for_to 3 (λ c. one_place_in_square d (r * 3) (c * 3)))
          (λ r.
            for_to-Moving 3 (λ c. one_place_in_square d (r * 3) (c * 3))
              (λ c. square-Moving d (r * 3) (c * 3))))

pub all_rows-Moving : Moving one_place_in_all_rows
unfolding one_place_in_all_rows
all_rows-Moving =
    for_to-Moving digits (λ d. for_to digits (one_place_in_row d))
      (λ d. for_to-Moving digits (one_place_in_row d) (row-Moving d))

pub all_columns-Moving : Moving one_place_in_all_columns
unfolding one_place_in_all_columns
all_columns-Moving =
    for_to-Moving digits (λ d. for_to digits (one_place_in_column d))
      (λ d. for_to-Moving digits (one_place_in_column d) (column-Moving d))
