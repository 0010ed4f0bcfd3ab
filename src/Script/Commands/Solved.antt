-- ===== src/Script/Commands/Solved.antt =====
-- A game that is over: when every cell shows a digit, the puzzle is solved.
use gtksudoku.Prelude.{
  if◌then◌else◌, ℕ, zero, suc, ◌+◌, ◌≤◌, ◌≡◌, ◌≢◌, refl, sym, ap, ◌∙◌, Bool, true, false, ◌&&◌,
  arith, some,
}
use gtksudoku.Prelude.{List, [], ◌∷◌, ◌==◌, ==→≡, leb, count_if, length, Bool-cases, inl, inr}
use gtksudoku.Constants.{digits}
use gtksudoku.Script.Board.{Place, Board, same, square, row, column}
use gtksudoku.Script.Board.Clean.{peers}
use gtksudoku.Script.Board.Houses.{square-InTable, row-InTable, column-InTable}
use gtksudoku.Script.Solution.{
  InTable, InSides, All, for_sides, for_sides_lem, for_digits, is_full, is_good, is_solution,
}
use gtksudoku.Script.Pairs.Laws.{InDigits}
use gtksudoku.Script.Session.{show_cell}
use gtksudoku.Script.Commands.Played.{Played, Played-legal}

-- Whether the places of a list are peers of each other.
unfoldable all_peers : Place → List Place → Bool
all_peers q [] = true
all_peers q (r ∷ rs) = peers q r && all_peers q rs

unfoldable apart : List Place → Bool
unfolding all_peers
apart [] = true
apart (q ∷ qs) = all_peers q qs && apart qs

squares_apart : for_sides (λ i. for_sides (λ j. apart (square (i, j, 1, 1)))) ≡ true
unfolding apart square row column same
squares_apart = refl

rows_apart : for_sides (λ i. for_sides (λ j. apart (row (i, 1, j, 1)))) ≡ true
unfolding apart square row column same
rows_apart = refl

columns_apart : for_sides (λ i. for_sides (λ j. apart (column (1, i, 1, j)))) ≡ true
unfolding apart square row column same
columns_apart = refl

-- The digits that are counted.
abbrev count : (Place → ℕ) → List Place → ℕ → ℕ
count sol qs d = count_if (λ q. sol q == d) qs

abbrev Differ : (Place → ℕ) → List Place → Type 0
Differ sol [] = Unit
Differ sol (q ∷ qs) = All (λ r. sol q ≢ sol r) qs × Differ sol qs

count-none :
    (sol : Place → ℕ) (n d : ℕ) (qs : List Place)
    → n ≡ d
    → All (λ r. n ≢ sol r) qs
    → count sol qs d ≡ 0
count-none sol n d [] e h = refl
count-none sol n d (q ∷ qs) e (here, h) =
    let rest = count-none sol n d qs e h in
    elim (Bool-cases (sol q == d)) [
      | inl hit ↦ absurd (here (e ∙ sym (==→≡ (sol q) d hit)))
      | inr miss ↦ ground (arith, miss, rest)
    ]

count-once : (sol : Place → ℕ) (d : ℕ) (qs : List Place) → Differ sol qs → count sol qs d ≤ 1
count-once sol d [] h = omega arith
count-once sol d (q ∷ qs) (here, h) = elim (Bool-cases (sol q == d)) [
  | inl hit ↦
      let rest = count-none sol (sol q) d qs (==→≡ (sol q) d hit) here in ground (arith, hit, rest)
  | inr miss ↦ let rest = count-once sol d qs h in ground (arith, miss, rest)
]

-- All the digits.
abbrev sum : (ℕ → ℕ) → ℕ
sum f = f 1 + f 2 + f 3 + f 4 + f 5 + f 6 + f 7 + f 8 + f 9

-- A digit is one of them.
one_of : (n : ℕ) → InDigits n → sum (λ d. if n == d then 1 else 0) ≡ 1
one_of zero h = absurd (omega (arith, h.0))
one_of (suc zero) h = refl
one_of (suc (suc zero)) h = refl
one_of (suc (suc (suc zero))) h = refl
one_of (suc (suc (suc (suc zero)))) h = refl
one_of (suc (suc (suc (suc (suc zero))))) h = refl
one_of (suc (suc (suc (suc (suc (suc zero)))))) h = refl
one_of (suc (suc (suc (suc (suc (suc (suc zero))))))) h = refl
one_of (suc (suc (suc (suc (suc (suc (suc (suc zero)))))))) h = refl
one_of (suc (suc (suc (suc (suc (suc (suc (suc (suc zero))))))))) h = refl
one_of (suc (suc (suc (suc (suc (suc (suc (suc (suc (suc n)))))))))) h = absurd (omega (arith, h.1))

sum-count :
    (sol : Place → ℕ) (qs : List Place)
    → All (λ q. InDigits (sol q)) qs
    → sum (count sol qs) ≡ length qs
sum-count sol [] h = refl
sum-count sol (q ∷ qs) (here, h) =
    let one = one_of (sol q) here in let rest = sum-count sol qs h in omega (arith, one, rest)

-- Numbers up to one that add up to nine.
sum-ones : (f : ℕ → ℕ) → ((d : ℕ) → f d ≤ 1) → sum f ≡ 9 → for_digits (λ d. f d == 1) ≡ true
sum-ones f h e =
    let one : (d : ℕ) → f d ≡ 1 → (f d == 1) ≡ true = λ d e. ground (arith, e) in
    let h1 = h 1 in
    let h2 = h 2 in
    let h3 = h 3 in
    let h4 = h 4 in
    let h5 = h 5 in
    let h6 = h 6 in
    let h7 = h 7 in
    let h8 = h 8 in
    let h9 = h 9 in
    let e1 = one 1 (omega arith) in
    let e2 = one 2 (omega arith) in
    let e3 = one 3 (omega arith) in
    let e4 = one 4 (omega arith) in
    let e5 = one 5 (omega arith) in
    let e6 = one 6 (omega arith) in
    let e7 = one 7 (omega arith) in
    let e8 = one 8 (omega arith) in
    let e9 = one 9 (omega arith) in rw (e1, e2, e3, e4, e5, e6, e7, e8, e9) refl

and_split : (x y : Bool) → (x && y) ≡ true → (x ≡ true) × (y ≡ true)
and_split true y h = (refl, h)
and_split false y h = absurd cc

for_sides_intro : (f : ℕ → Bool) → ((i : ℕ) → InSides i → f i ≡ true) → for_sides f ≡ true
for_sides_intro f h =
    let one = h 1 (omega arith, omega arith) in
    let two = h 2 (omega arith, omega arith) in
    let three = h 3 (omega arith, omega arith) in rw (one, two, three) refl

-- The cell at a place shows this digit.
abbrev pub Shown : Board → (Place → ℕ) → Place → Type 0
Shown b sol p = InDigits (sol p) × (show_cell (b p) ≡ some (48 + sol p))

module _ (b : Board) (played : Played b) (sol : Place → ℕ) where
  peers_differ : (q r : Place) → Shown b sol q → Shown b sol r → peers q r ≡ true → sol q ≢ sol r
  peers_differ q r (i, here) (j, there) peer e =
      Played-legal b played q r (sol q) peer here (there ∙ ap (λ n. some (48 + n)) (sym e))

  all_peers-differ :
      (q : Place) (rs : List Place)
      → Shown b sol q
      → All (Shown b sol) rs
      → all_peers q rs ≡ true
      → All (λ r. sol q ≢ sol r) rs
  unfolding all_peers
  all_peers-differ q [] here there h = tt
  all_peers-differ q (r ∷ rs) here (at, there) h =
      let (peer, rest) = and_split (peers q r) (all_peers q rs) h in
      (peers_differ q r here at peer, all_peers-differ q rs here there rest)

  apart-Differ : (qs : List Place) → All (Shown b sol) qs → apart qs ≡ true → Differ sol qs
  unfolding apart
  apart-Differ [] shown h = tt
  apart-Differ (q ∷ qs) (here, shown) h =
      let (first, rest) = and_split (all_peers q qs) (apart qs) h in
      (all_peers-differ q qs here shown first, apart-Differ qs shown rest)

  digits_of : (qs : List Place) → All (Shown b sol) qs → All (λ q. InDigits (sol q)) qs
  digits_of [] h = tt
  digits_of (q ∷ qs) (here, h) = (here.0, digits_of qs h)

  house-is_full :
      (qs : List Place)
      → length qs ≡ 9
      → All (Shown b sol) qs
      → apart qs ≡ true
      → is_full sol qs ≡ true
  unfolding is_full
  house-is_full qs nine shown h =
      sum-ones (count sol qs) (λ d. count-once sol d qs (apart-Differ qs shown h))
        (sum-count sol qs (digits_of qs shown) ∙ nine)

  Shown-All :
      (qs : List Place)
      → ((p : Place) → InTable p → Shown b sol p)
      → All InTable qs
      → All (Shown b sol) qs
  Shown-All [] h inside = tt
  Shown-All (q ∷ qs) h (here, inside) = (h q here, Shown-All qs h inside)

  place-is_good :
      (p : Place) → ((p : Place) → InTable p → Shown b sol p) → InTable p → is_good sol p ≡ true
  unfolding is_good square row column
  place-is_good (r1, c1, r2, c2) h (i, j, k, l) =
      let p : Place = (r1, c1, r2, c2) in
      let at =
        λ (qs : List Place) (nine : length qs ≡ 9) (inside : All InTable qs)
            (far : apart qs ≡ true).
          house-is_full qs nine (Shown-All qs h inside) far in
      let in_square = at (square p) refl (square-InTable p (i, j, k, l)) (
        for_sides_lem (λ j. apart (square (r1, j, 1, 1))) c1
          (for_sides_lem (λ i. for_sides (λ j. apart (square (i, j, 1, 1)))) r1 squares_apart i)
          j) in
      let in_row = at (row p) refl (row-InTable p (i, j, k, l)) (
        for_sides_lem (λ j. apart (row (r1, 1, j, 1))) r2
          (for_sides_lem (λ i. for_sides (λ j. apart (row (i, 1, j, 1)))) r1 rows_apart i) k) in
      let in_column = at (column p) refl (column-InTable p (i, j, k, l)) (
        for_sides_lem (λ j. apart (column (1, c1, 1, j))) c2
          (for_sides_lem (λ i. for_sides (λ j. apart (column (1, i, 1, j)))) c1 columns_apart j)
          l) in
      let (low, high) = (h p (i, j, k, l)).0 in
      let at_least : leb 1 (sol p) ≡ true = ground (arith, low) in
      let at_most : leb (sol p) digits ≡ true = ground (arith, high) in
      rw (at_least, at_most, in_square, in_row, in_column) refl

-- If every cell of a board of a game shows a digit from 1 to 9, the digits are a solution of the
-- puzzle: every row, column and square has each of them once.
pub Played-solved :
    (b : Board) (played : Played b) (sol : Place → ℕ)
    → ((p : Place) → InTable p → Shown b sol p)
    → is_solution sol ≡ true
unfolding is_solution
Played-solved b played sol shown = for_sides_intro _ (λ r1 i. for_sides_intro _ (λ c1 j.
    for_sides_intro _ (λ r2 k.
      for_sides_intro _ (λ c2 l. place-is_good b played sol (r1, c1, r2, c2) shown (i, j, k, l)))))
