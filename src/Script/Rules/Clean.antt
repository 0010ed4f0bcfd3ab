-- ===== src/Script/Rules/Clean.antt =====
-- The basic rules take the digits that they determine away from the other places.
use gtksudoku.Prelude.{
  ℕ, zero, suc, ◌+◌, ◌*◌, Bool, false, ◌||◌, List, [], ◌∷◌, ◌==◌, count_if, Bool-cases,
  Option-cases, inl, inr,
}
use gtksudoku.Constants.{digits}
use gtksudoku.Script.Board.{
  Place, Board, mark, square, row, column, determine, Result, ok, then_with,
}
use gtksudoku.Script.Board.Clean.{OnOk, OnOk-then_with, Step, Step-refl, Step-next, Stepping}
use gtksudoku.Script.Board.Clean.Determined.{determine-Step}
use gtksudoku.Script.Load.{digits2}
use gtksudoku.Script.Rules.{
  spread, settle, one_place, one_place_in_square, one_place_in_row, one_place_in_column, for_to,
  one_place_in_all_squares, one_place_in_all_rows, one_place_in_all_columns,
}

-- A call that goes on from what a rule leaves.
pub Stepping-then_with :
    (b : Board) (r : Result) (k : Board → Bool → Result)
    → OnOk (Step b) r
    → ((b' : Board) (e : Bool) → OnOk (Step b') (k b' e))
    → OnOk (Step b) (then_with r k)
Stepping-then_with b r k first next =
    OnOk-then_with (Step b) (Step b) r k first
      (λ b' e step. Step-next b b' (k b' e) step (next b' e))

settle-Step : (d : ℕ) (qs : List Place) (b : Board) (e : Bool) → OnOk (Step b) (settle d qs b e)
unfolding settle
settle-Step d [] b e = Step-refl b
settle-Step d (q ∷ qs) b e = elim (Bool-cases (mark (b q) d)) [
  | inl hit ↦
      rw (settle, hit)
        (Stepping-then_with b (determine (digits2 + 1) q d b) (λ b' f. settle d qs b' (f || e))
          (determine-Step (digits2 + 1) q d b) (λ b' f. settle-Step d qs b' (f || e)))
  | inr miss ↦ rw (settle, miss) (settle-Step d qs b e)
]

one_place-Stepping : (d : ℕ) (qs : List Place) → Stepping (one_place d qs)
unfolding one_place
one_place-Stepping d qs b = elim (Bool-cases (count_if (λ q. mark (b q) d) qs == 1)) [
  | inl e ↦ rw (one_place, e) (settle-Step d qs b false)
  | inr e ↦ rw (one_place, e) (Step-refl b)
]

pub row-Stepping : (d r : ℕ) → Stepping (one_place_in_row d r)
unfolding one_place_in_row
row-Stepping d r b = elim (Option-cases (spread r)) [
  | inl e ↦ rw (one_place_in_row, e) tt
  | inr ((i, j), e) ↦ rw (one_place_in_row, e) (one_place-Stepping d (row (i, 1, j, 1)) b)
]

pub column-Stepping : (d c : ℕ) → Stepping (one_place_in_column d c)
unfolding one_place_in_column
column-Stepping d c b = elim (Option-cases (spread c)) [
  | inl e ↦ rw (one_place_in_column, e) tt
  | inr ((i, j), e) ↦ rw (one_place_in_column, e) (one_place-Stepping d (column (1, i, 1, j)) b)
]

pub square-Stepping : (d r c : ℕ) → Stepping (one_place_in_square d r c)
unfolding one_place_in_square
square-Stepping d r c b = elim (Option-cases (spread r)) [
  | inl e ↦ rw (one_place_in_square, e) tt
  | inr ((i, i'), e) ↦ elim (Option-cases (spread c)) [
    | inl e' ↦ rw (one_place_in_square, e, e') tt
    | inr ((j, j'), e') ↦
        rw (one_place_in_square, e, e') (one_place-Stepping d (square (i, j, 1, 1)) b)
  ]
]

for_to-Stepping :
    (n : ℕ) (body : ℕ → Board → Result) → ((i : ℕ) → Stepping (body i)) → Stepping (for_to n body)
unfolding for_to
for_to-Stepping zero body steps b = Step-refl b
for_to-Stepping (suc n) body steps b =
    Stepping-then_with b (for_to n body b)
      (λ b1 e1. then_with (body (suc n) b1) (λ b2 e2. ok b2 (e2 || e1)))
      (for_to-Stepping n body steps b)
      (λ b1 e1.
        Stepping-then_with b1 (body (suc n) b1) (λ b2 e2. ok b2 (e2 || e1)) (steps (suc n) b1)
          (λ b2 e2. Step-refl b2))

pub all_squares-Stepping : Stepping one_place_in_all_squares
unfolding one_place_in_all_squares
all_squares-Stepping =
    for_to-Stepping digits
      (λ d. for_to 3 (λ r. for_to 3 (λ c. one_place_in_square d (r * 3) (c * 3))))
      (λ d.
        for_to-Stepping 3 (λ r. for_to 3 (λ c. one_place_in_square d (r * 3) (c * 3)))
          (λ r.
            for_to-Stepping 3 (λ c. one_place_in_square d (r * 3) (c * 3))
              (λ c. square-Stepping d (r * 3) (c * 3))))

pub all_rows-Stepping : Stepping one_place_in_all_rows
unfolding one_place_in_all_rows
all_rows-Stepping =
    for_to-Stepping digits (λ d. for_to digits (one_place_in_row d))
      (λ d. for_to-Stepping digits (one_place_in_row d) (row-Stepping d))

pub all_columns-Stepping : Stepping one_place_in_all_columns
unfolding one_place_in_all_columns
all_columns-Stepping =
    for_to-Stepping digits (λ d. for_to digits (one_place_in_column d))
      (λ d. for_to-Stepping digits (one_place_in_column d) (column-Stepping d))
