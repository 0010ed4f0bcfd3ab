-- ===== src/Script/Rules/Counts.antt =====
-- Two tests over the places of a house, one of which implies the other.
use gtksudoku.Prelude.{◌≤◌, ◌≡◌, Bool, true, arith, List, [], ◌∷◌, count_if, Bool-cases, inl, inr}
use gtksudoku.Script.Board.{Place}
use gtksudoku.Script.Solution.{InTable, All}

-- Two tests with as many hits, one of which implies the other.
count_if-le :
    (f g : Place → Bool) (qs : List Place)
    → All InTable qs
    → ((q : Place) → InTable q → f q ≡ true → g q ≡ true)
    → count_if f qs ≤ count_if g qs
count_if-le f g [] inside h = omega arith
count_if-le f g (q ∷ qs) (here, inside) h = elim (Bool-cases (f q)) [
  | inl e ↦ ground (arith, e, h q here e, count_if-le f g qs inside h)
  | inr e ↦ ground (arith, e, count_if-le f g qs inside h)
]

pub count_if-same :
    (f g : Place → Bool) (qs : List Place)
    → All InTable qs
    → ((q : Place) → InTable q → f q ≡ true → g q ≡ true)
    → count_if g qs ≤ count_if f qs
    → All (λ q. g q ≡ true → f q ≡ true) qs
count_if-same f g [] inside h le = tt
count_if-same f g (q ∷ qs) (here, inside) h le =
    let rest = count_if-le f g qs inside h in
    elim (Bool-cases (f q)) [
      | inl e ↦
          let hit : g q ≡ true = h q here e in
          (λ k. e, count_if-same f g qs inside h (ground (arith, le, e, hit)))
      | inr e ↦ (
        λ k. absurd (ground (arith, le, e, k, rest)),
        count_if-same f g qs inside h (elim (Bool-cases (g q)) [
          | inl k ↦ absurd (ground (arith, le, e, k, rest))
          | inr k ↦ ground (arith, le, e, k)
        ]),
      )
    ]
