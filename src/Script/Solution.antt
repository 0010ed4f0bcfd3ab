-- ===== src/Script/Solution.antt =====
-- The solutions of a puzzle: every row, column and square contains the digits one through nine. A
-- board keeps a solution if its digit is still left in every cell.
use gtksudoku.Prelude.{
  ℕ, zero, suc, ◌≤◌, ◌≡◌, refl, Bool, true, false, not, ◌&&◌, ◌||◌, arith, Bool-cases, inl, inr,
}
use gtksudoku.Prelude.{List, [], ◌∷◌, ◌==◌, leb, count_if}
use gtksudoku.Constants.{digits}
use gtksudoku.Script.Board.{Place, Board, same, mark, square, row, column}

-- A loop from 1 to `sides` of tests, and one from 1 to `digits`.
abbrev pub for_sides : (ℕ → Bool) → Bool
for_sides f = f 1 && f 2 && f 3

abbrev pub for_digits : (ℕ → Bool) → Bool
for_digits f = f 1 && f 2 && f 3 && f 4 && f 5 && f 6 && f 7 && f 8 && f 9

-- Each digit stands at exactly one place of a house.
unfoldable pub is_full : (Place → ℕ) → List Place → Bool
is_full sol qs = for_digits (λ d. count_if (λ q. sol q == d) qs == 1)

unfoldable pub is_good : (Place → ℕ) → Place → Bool
is_good sol p =
    leb 1 (sol p)
    && leb (sol p) digits
    && is_full sol (square p)
    && is_full sol (row p)
    && is_full sol (column p)

unfoldable pub is_solution : (Place → ℕ) → Bool
is_solution sol =
    for_sides
      (λ r1. for_sides (λ c1. for_sides (λ r2. for_sides (λ c2. is_good sol (r1, c1, r2, c2)))))

abbrev pub InSides : ℕ → Type 0
InSides i = (1 ≤ i) × (i ≤ 3)

-- A place of the table.
abbrev pub InTable : Place → Type 0
InTable (r1, c1, r2, c2) = InSides r1 × InSides c1 × InSides r2 × InSides c2

-- The digit of the solution is still left everywhere.
abbrev pub Keeps : (Place → ℕ) → Board → Type 0
Keeps sol b = (p : Place) → InTable p → mark (b p) (sol p) ≡ true

pub for_sides_lem : (f : ℕ → Bool) (i : ℕ) → for_sides f ≡ true → InSides i → f i ≡ true
for_sides_lem f zero h (a, b) = absurd (omega (arith, a))
for_sides_lem f (suc zero) h k = ground (arith, h)
for_sides_lem f (suc (suc zero)) h k = ground (arith, h)
for_sides_lem f (suc (suc (suc zero))) h k = ground (arith, h)
for_sides_lem f (suc (suc (suc (suc n)))) h (a, b) = absurd (omega (arith, b))

-- A test at every place of the table.
abbrev pub for_places : (Place → Bool) → Bool
for_places f =
    for_sides (λ r1. for_sides (λ c1. for_sides (λ r2. for_sides (λ c2. f (r1, c1, r2, c2)))))

pub for_places_lem : (f : Place → Bool) (p : Place) → for_places f ≡ true → InTable p → f p ≡ true
for_places_lem f (r1, c1, r2, c2) h (a, b, c, d) =
    let along_c2 = λ (i : ℕ) (j : ℕ) (k : ℕ) (l : ℕ). f (i, j, k, l) in
    let along_r2 = λ (i : ℕ) (j : ℕ) (k : ℕ). for_sides (along_c2 i j k) in
    let along_c1 = λ (i : ℕ) (j : ℕ). for_sides (along_r2 i j) in
    for_sides_lem (along_c2 r1 c1 r2) c2
      (for_sides_lem (along_r2 r1 c1) r2
        (for_sides_lem (along_c1 r1) c1 (for_sides_lem (λ i. for_sides (along_c1 i)) r1 h a) b) c)
      d

pub is_solution_lem :
    (sol : Place → ℕ) (p : Place) → is_solution sol ≡ true → InTable p → is_good sol p ≡ true
unfolding is_solution
is_solution_lem sol p h inside = for_places_lem (is_good sol) p h inside

-- What holds at every place of a list.
abbrev pub All {ℓ} : (Place → Type ℓ) → List Place → Type ℓ
All P [] = Unit
All P (q ∷ qs) = P q × All P qs

abbrev pub has : Place → List Place → Bool
has p [] = false
has p (q ∷ qs) = same p q || has p qs

pub same→≡ : (p q : Place) → same p q ≡ true → p ≡ q
unfolding same
same→≡ (r1, c1, r2, c2) (s1, d1, s2, d2) h = ground (arith, h)

pub same_refl : (p : Place) → same p p ≡ true
unfolding same
same_refl (r1, c1, r2, c2) = ground arith

count_if-zero :
    (f : Place → Bool) (p : Place) (qs : List Place)
    → count_if f qs ≡ 0
    → All (λ q. (same p q || not (f q)) ≡ true) qs
count_if-zero f p [] h = tt
count_if-zero f p (q ∷ qs) h = (ground (arith, h), count_if-zero f p qs (ground (arith, h)))

has-count_if :
    (f : Place → Bool) (p : Place) (qs : List Place)
    → f p ≡ true
    → has p qs ≡ true
    → 1 ≤ count_if f qs
has-count_if f p [] fp h = cc
has-count_if f p (q ∷ qs) fp h = elim (Bool-cases (same p q)) [
  | inl e ↦ let here : f q ≡ true = rw (← same→≡ p q e) fp in ground (arith, here)
  | inr e ↦ ground (arith, e, h, has-count_if f p qs fp)
]

-- Where a test holds at one place of a list only, it is the place where it is known to hold.
pub count_if-one :
    (f : Place → Bool) (p : Place) (qs : List Place)
    → f p ≡ true
    → has p qs ≡ true
    → count_if f qs ≡ 1
    → All (λ q. (same p q || not (f q)) ≡ true) qs
count_if-one f p [] fp h one = tt
count_if-one f p (q ∷ qs) fp h one = elim (Bool-cases (same p q)) [
  | inl e ↦
      let here : f q ≡ true = rw (← same→≡ p q e) fp in
      (rw e refl, count_if-zero f p qs (ground (arith, one, here)))
  | inr e ↦
      let rest : has p qs ≡ true = ground (arith, e, h) in
      let some_left = has-count_if f p qs fp rest in
      (ground (arith, one, some_left), count_if-one f p qs fp rest (ground (arith, one, some_left)))
]
