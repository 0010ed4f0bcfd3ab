-- ===== src/Script/Board/Houses.antt =====
-- The houses of a place, and what a solution of the puzzle says of them.
use mathlib.Core.Option.{some-injective}
use gtksudoku.Prelude.{
  ℕ, zero, suc, ◌+◌, ◌≤◌, ◌≡◌, refl, Bool, true, arith, List, [], ◌∷◌, map, ◌==◌, count_if, ==_refl,
  get_elem?, some, ◌-◌, ◌*◌,
}
use gtksudoku.Constants.{digits}
use gtksudoku.Script.Board.{Place, pairs, same, square, row, column}
use gtksudoku.Script.Board.Loops.{Others}
use gtksudoku.Script.Solution.{
  InTable, InSides, All, has, is_solution, is_solution_lem, is_good, is_full, for_digits,
  count_if-one, same_refl,
}

-- The two nested loops reach every pair once they should.
pairs_lem :
    (i j : ℕ) → InSides i → InSides j → get_elem? pairs (3 * (i - 1) + (j - 1)) ≡ some (i, j)
pairs_lem (suc zero) (suc zero) h k = refl
pairs_lem (suc zero) (suc (suc zero)) h k = refl
pairs_lem (suc zero) (suc (suc (suc zero))) h k = refl
pairs_lem (suc zero) zero h (a, b) = absurd (omega (arith, a))
pairs_lem (suc zero) (suc (suc (suc (suc n)))) h (a, b) = absurd (omega (arith, b))
pairs_lem (suc (suc zero)) (suc zero) h k = refl
pairs_lem (suc (suc zero)) (suc (suc zero)) h k = refl
pairs_lem (suc (suc zero)) (suc (suc (suc zero))) h k = refl
pairs_lem (suc (suc zero)) zero h (a, b) = absurd (omega (arith, a))
pairs_lem (suc (suc zero)) (suc (suc (suc (suc n)))) h (a, b) = absurd (omega (arith, b))
pairs_lem (suc (suc (suc zero))) (suc zero) h k = refl
pairs_lem (suc (suc (suc zero))) (suc (suc zero)) h k = refl
pairs_lem (suc (suc (suc zero))) (suc (suc (suc zero))) h k = refl
pairs_lem (suc (suc (suc zero))) zero h (a, b) = absurd (omega (arith, a))
pairs_lem (suc (suc (suc zero))) (suc (suc (suc (suc n)))) h (a, b) = absurd (omega (arith, b))
pairs_lem zero j (a, b) k = absurd (omega (arith, a))
pairs_lem (suc (suc (suc (suc n)))) j (a, b) k = absurd (omega (arith, b))

get_elem?-map :
    (f : ℕ × ℕ → Place) (ks : List (ℕ × ℕ)) (n : ℕ) {k : ℕ × ℕ}
    → get_elem? ks n ≡ some k
    → get_elem? (map f ks) n ≡ some (f k)
get_elem?-map f [] n h = absurd (ground (arith, h))
get_elem?-map f (x ∷ ks) zero h = ground (arith, h)
get_elem?-map f (x ∷ ks) (suc n) h = get_elem?-map f ks n h

has_at : (p : Place) (qs : List Place) (n : ℕ) → get_elem? qs n ≡ some p → has p qs ≡ true
has_at p [] n h = absurd (ground (arith, h))
has_at p (q ∷ qs) zero h =
    let e : same p q ≡ true = rw (some-injective q p h) (same_refl p) in ground (arith, e)
has_at p (q ∷ qs) (suc n) h = ground (arith, has_at p qs n h)

has_pair :
    (f : ℕ × ℕ → Place) (i j : ℕ) → InSides i → InSides j → has (f (i, j)) (map f pairs) ≡ true
has_pair f i j h k =
    has_at (f (i, j)) (map f pairs) (3 * (i - 1) + (j - 1))
      (get_elem?-map f pairs (3 * (i - 1) + (j - 1)) (pairs_lem i j h k))

pub has-square : (p : Place) → InTable p → has p (square p) ≡ true
unfolding square
has-square (r1, c1, r2, c2) (a, b, c, d) = has_pair (λ k. (r1, c1, k.0, k.1)) r2 c2 c d

pub has-row : (p : Place) → InTable p → has p (row p) ≡ true
unfolding row
has-row (r1, c1, r2, c2) (a, b, c, d) = has_pair (λ k. (r1, k.0, r2, k.1)) c1 c2 b d

pub has-column : (p : Place) → InTable p → has p (column p) ≡ true
unfolding column
has-column (r1, c1, r2, c2) (a, b, c, d) = has_pair (λ k. (k.0, c1, k.1, c2)) r1 r2 a c

pub each_pair :
    (f : ℕ × ℕ → Place)
    → ((i j : ℕ) → InSides i → InSides j → InTable (f (i, j)))
    → All InTable (map f pairs)
each_pair f h =
    let one : InSides 1 = (omega arith, omega arith) in
    let two : InSides 2 = (omega arith, omega arith) in
    let three : InSides 3 = (omega arith, omega arith) in
    (
      h 1 1 one one,
      (
        h 1 2 one two,
        (
          h 1 3 one three,
          (
            h 2 1 two one,
            (
              h 2 2 two two,
              (h 2 3 two three, (h 3 1 three one, (h 3 2 three two, (h 3 3 three three, tt)))),
            ),
          ),
        ),
      ),
    )

pub square-InTable : (p : Place) → InTable p → All InTable (square p)
unfolding square
square-InTable (r1, c1, r2, c2) (a, b, c, d) =
    each_pair (λ k. (r1, c1, k.0, k.1)) (λ i j h k. (a, b, h, k))

pub row-InTable : (p : Place) → InTable p → All InTable (row p)
unfolding row
row-InTable (r1, c1, r2, c2) (a, b, c, d) =
    each_pair (λ k. (r1, k.0, r2, k.1)) (λ i j h k. (a, h, c, k))

pub column-InTable : (p : Place) → InTable p → All InTable (column p)
unfolding column
column-InTable (r1, c1, r2, c2) (a, b, c, d) =
    each_pair (λ k. (k.0, c1, k.1, c2)) (λ i j h k. (h, b, k, d))

pub for_digits_lem : (f : ℕ → Bool) (d : ℕ) → for_digits f ≡ true → 1 ≤ d → d ≤ digits → f d ≡ true
for_digits_lem f zero h p q = absurd (omega (arith, p))
for_digits_lem f (suc zero) h p q = ground (arith, h)
for_digits_lem f (suc (suc zero)) h p q = ground (arith, h)
for_digits_lem f (suc (suc (suc zero))) h p q = ground (arith, h)
for_digits_lem f (suc (suc (suc (suc zero)))) h p q = ground (arith, h)
for_digits_lem f (suc (suc (suc (suc (suc zero))))) h p q = ground (arith, h)
for_digits_lem f (suc (suc (suc (suc (suc (suc zero)))))) h p q = ground (arith, h)
for_digits_lem f (suc (suc (suc (suc (suc (suc (suc zero))))))) h p q = ground (arith, h)
for_digits_lem f (suc (suc (suc (suc (suc (suc (suc (suc zero)))))))) h p q = ground (arith, h)
for_digits_lem f (suc (suc (suc (suc (suc (suc (suc (suc (suc zero))))))))) h p q =
    ground (arith, h)
for_digits_lem f (suc (suc (suc (suc (suc (suc (suc (suc (suc (suc n)))))))))) h p q =
    absurd (omega (arith, q))

-- A digit stands once in a house that is full.
pub is_full_lem :
    (sol : Place → ℕ) (qs : List Place) (d : ℕ)
    → is_full sol qs ≡ true
    → 1 ≤ d
    → d ≤ digits
    → count_if (λ q. sol q == d) qs ≡ 1
unfolding is_full
is_full_lem sol qs d h p q =
    let one = for_digits_lem (λ k. count_if (λ x. sol x == k) qs == 1) d h p q in
    ground (arith, one)

module _ (sol : Place → ℕ) (solved : is_solution sol ≡ true) (p : Place) (inside : InTable p) where
  -- The digit of a place is from 1 to 9, and stands nowhere else in its houses.
  pub digit-Others :
      (1 ≤ sol p)
      × (sol p ≤ digits)
      × Others sol (sol p) p (square p)
      × Others sol (sol p) p (row p)
      × Others sol (sol p) p (column p)
  unfolding is_good
  digit-Others =
      let good = is_solution_lem sol p solved inside in
      let one : 1 ≤ sol p = ground (arith, good) in
      let nine : sol p ≤ digits = ground (arith, good) in
      let others = λ (qs : List Place) (full : is_full sol qs ≡ true) (here : has p qs ≡ true).
        count_if-one (λ q. sol q == sol p) p qs (==_refl (sol p)) here
          (is_full_lem sol qs (sol p) full one nine) in
      (
        one,
        nine,
        others (square p) (ground (arith, good)) (has-square p inside),
        others (row p) (ground (arith, good)) (has-row p inside),
        others (column p) (ground (arith, good)) (has-column p inside),
      )
