-- ===== src/Script/Board/Count.antt =====
-- Sums over the cells of a board: how many cells are not determined, and how many digits are left.
use gtksudoku.Prelude.{
  ℕ, zero, suc, ◌+◌, ◌*◌, ◌≤◌, ◌<◌, ◌≡◌, Bool, true, false, arith, if◌then◌else◌, Bool-cases, inl,
  inr,
}
use gtksudoku.Script.Cell.{Cell, unknowns}
use gtksudoku.Script.Board.{Place, Board, same, put}
use gtksudoku.Script.Board.Loops.{SameFlags}
use gtksudoku.Script.Solution.{InTable, InSides, same_refl, same→≡}

abbrev pub sum_sides : (ℕ → ℕ) → ℕ
sum_sides f = f 1 + f 2 + f 3

sum_sides-le : (f g : ℕ → ℕ) → ((i : ℕ) → f i ≤ g i) → sum_sides f ≤ sum_sides g
sum_sides-le f g h = omega (arith, h 1, h 2, h 3)

sum_sides-lt :
    (f g : ℕ → ℕ) (i : ℕ)
    → ((i : ℕ) → f i ≤ g i)
    → InSides i
    → f i < g i
    → sum_sides f < sum_sides g
sum_sides-lt f g zero h (a, b) lt = absurd (omega (arith, a))
sum_sides-lt f g (suc zero) h k lt = omega (arith, h 2, h 3, lt)
sum_sides-lt f g (suc (suc zero)) h k lt = omega (arith, h 1, h 3, lt)
sum_sides-lt f g (suc (suc (suc zero))) h k lt = omega (arith, h 1, h 2, lt)
sum_sides-lt f g (suc (suc (suc (suc n)))) h (a, b) lt = absurd (omega (arith, b))

sum_sides-bound : (f : ℕ → ℕ) (n : ℕ) → ((i : ℕ) → f i ≤ n) → sum_sides f ≤ 3 * n
sum_sides-bound f n h = omega (arith, h 1, h 2, h 3)

-- A sum over the table of what each cell weighs.
module _ (w : Cell → ℕ) where
  abbrev at_c2 : Board → ℕ → ℕ → ℕ → ℕ → ℕ
  at_c2 x r1 c1 r2 c2 = w (x (r1, c1, r2, c2))

  abbrev at_r2 : Board → ℕ → ℕ → ℕ → ℕ
  at_r2 x r1 c1 r2 = sum_sides (at_c2 x r1 c1 r2)

  abbrev at_c1 : Board → ℕ → ℕ → ℕ
  at_c1 x r1 c1 = sum_sides (at_r2 x r1 c1)

  abbrev at_r1 : Board → ℕ → ℕ
  at_r1 x r1 = sum_sides (at_c1 x r1)

  unfoldable pub total : Board → ℕ
  total b = sum_sides (at_r1 b)

  module _ (b b' : Board) (h : (p : Place) → w (b' p) ≤ w (b p)) where
    le_r2 : (r1 c1 r2 : ℕ) → at_r2 b' r1 c1 r2 ≤ at_r2 b r1 c1 r2
    le_r2 r1 c1 r2 = sum_sides-le (at_c2 b' r1 c1 r2) (at_c2 b r1 c1 r2) (λ c2. h (r1, c1, r2, c2))

    le_c1 : (r1 c1 : ℕ) → at_c1 b' r1 c1 ≤ at_c1 b r1 c1
    le_c1 r1 c1 = sum_sides-le (at_r2 b' r1 c1) (at_r2 b r1 c1) (le_r2 r1 c1)

    le_r1 : (r1 : ℕ) → at_r1 b' r1 ≤ at_r1 b r1
    le_r1 r1 = sum_sides-le (at_c1 b' r1) (at_c1 b r1) (le_c1 r1)

    pub total-le : total b' ≤ total b
    unfolding total
    total-le = sum_sides-le (at_r1 b') (at_r1 b) le_r1

    total-lt : (p : Place) → InTable p → w (b' p) < w (b p) → total b' < total b
    unfolding total
    total-lt (r1, c1, r2, c2) (i, j, k, l) lt = sum_sides-lt (at_r1 b') (at_r1 b) r1 le_r1 i (
        sum_sides-lt (at_c1 b' r1) (at_c1 b r1) c1 (le_c1 r1) j (
          sum_sides-lt (at_r2 b' r1 c1) (at_r2 b r1 c1) r2 (le_r2 r1 c1) k (
            sum_sides-lt (at_c2 b' r1 c1 r2) (at_c2 b r1 c1 r2) c2 (λ c2. h (r1, c1, r2, c2)) l
              lt)))

  put_le :
      (b : Board) (p : Place) (x : Cell) → w x ≤ w (b p) → (q : Place) → w (put b p x q) ≤ w (b q)
  unfolding put
  put_le b p x le q = elim (Bool-cases (same p q)) [
    | inl e ↦ rw (e, ← same→≡ p q e) le
    | inr e ↦ rw e (omega arith)
  ]

  -- A write of a cell that does not weigh more, and of one that weighs less.
  pub total-put-le :
      (b : Board) (p : Place) (x : Cell) → w x ≤ w (b p) → total (put b p x) ≤ total b
  total-put-le b p x le = total-le b (put b p x) (put_le b p x le)

  pub total-put-lt :
      (b : Board) (p : Place) (x : Cell) → InTable p → w x < w (b p) → total (put b p x) < total b
  unfolding put
  total-put-lt b p x inside lt =
      total-lt b (put b p x) (put_le b p x (omega (arith, lt))) p inside (rw (same_refl p) lt)

  pub total-bound : (b : Board) (n : ℕ) → ((p : Place) → w (b p) ≤ n) → total b ≤ 81 * n
  unfolding total
  total-bound b n h =
      let sides = sum_sides-bound (at_r1 b) (27 * n) (λ r1.
        let c1 = sum_sides-bound (at_c1 b r1) (9 * n) (λ c1.
          let r2 =
            sum_sides-bound (at_r2 b r1 c1) (3 * n)
              (λ r2. sum_sides-bound (at_c2 b r1 c1 r2) n (λ c2. h (r1, c1, r2, c2))) in
          omega (arith, r2)) in
        omega (arith, c1)) in
      omega (arith, sides)

abbrev pub open_cell : Cell → ℕ
open_cell x = if x.determined then 0 else 1

unfoldable pub undetermined : Board → ℕ
undetermined b = total open_cell b

-- The digits that are left, over all cells.
unfoldable pub left : Board → ℕ
left b = total unknowns b

pub undetermined-SameFlags : (b b' : Board) → SameFlags b b' → undetermined b' ≤ undetermined b
unfolding undetermined
undetermined-SameFlags b b' flags =
    total-le open_cell b b' (λ p. let e = flags p in ground (arith, e))

-- A write that determines a cell which is not leaves one less.
pub undetermined-put :
    (b : Board) (p : Place) (x : Cell)
    → InTable p
    → (b p).determined ≡ false
    → x.determined ≡ true
    → undetermined (put b p x) < undetermined b
unfolding undetermined
undetermined-put b p x inside before after =
    total-put-lt open_cell b p x inside (rw (before, after) (omega arith))

flag-bound : (e : Bool) → (if e then 0 else 1) ≤ 1
flag-bound true = omega arith
flag-bound false = omega arith

-- A board has 81 cells.
pub undetermined-bound : (b : Board) → undetermined b ≤ 81
unfolding undetermined
undetermined-bound b =
    let cells = total-bound open_cell b 1 (λ p. flag-bound (b p).determined) in omega (arith, cells)
