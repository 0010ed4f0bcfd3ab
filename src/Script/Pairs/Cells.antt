-- ===== src/Script/Pairs/Cells.antt =====
-- Two cells with the same pair: the loop keeps the solution of a puzzle.
use gtksudoku.Prelude.{
  ℕ, zero, suc, ◌+◌, ◌-◌, ◌≤◌, ◌≡◌, ◌≢◌, refl, ◌∙◌, ap, Bool, true, false, not, ◌||◌, arith,
}
use gtksudoku.Prelude.{List, [], ◌∷◌, ◌==◌, count_if, Bool-cases, inl, inr, get_or}
use gtksudoku.Constants.{digits}
use gtksudoku.Script.Cell.{only_pair_present, only_pair_from}
use gtksudoku.Script.Board.{Place, Board, mark, put, same}
use gtksudoku.Script.Board.Count.{undetermined-bound}
use gtksudoku.Script.Board.Entries.{mark→entry}
use gtksudoku.Script.Board.Determine.{Good, digit-range}
use gtksudoku.Script.Solution.{InTable, Keeps, All, is_solution, same→≡}
use gtksudoku.Script.Load.{digits2}
use gtksudoku.Script.Rules.Counts.{count_if-same}
use gtksudoku.Script.Rules.Laws.{Once}
use gtksudoku.Script.Crossing.{taken}
use gtksudoku.Script.Crossing.Laws.{taken-Keeps}
use gtksudoku.Script.Pairs.{take_pair, same_pair}
use gtksudoku.Script.Pairs.Places.{of_pair, pair_count}

-- What is left in a cell with a pair only is one of the pair.
only_pair_from-left :
    (d1 d2 i k : ℕ) (ms : List Bool)
    → only_pair_from d1 d2 i ms ≡ true
    → get_or ms k false ≡ true
    → (i + k == d1 || i + k == d2) ≡ true
unfolding only_pair_from
only_pair_from-left d1 d2 i k [] e h = absurd (ground (arith, h))
only_pair_from-left d1 d2 i zero (m ∷ ms) e h = ground (arith, e, h)
only_pair_from-left d1 d2 i (suc k) (m ∷ ms) e h =
    let rest = only_pair_from-left d1 d2 (i + 1) k ms (ground (arith, e)) h in ground (arith, rest)

-- Taking a digit away at one place leaves the others alone.
taken_other : (d : ℕ) (p q : Place) (b : Board) → same p q ≡ false → taken d p b q ≡ b q
unfolding put
taken_other d p q b h = elim (Bool-cases (mark (b p) d)) [
  | inl e ↦ rw (e, h) refl
  | inr e ↦ rw e refl
]

module _ (sol : Place → ℕ) (solved : is_solution sol ≡ true) (d1 d2 : ℕ) where
  abbrev pair_at : Place → Bool
  pair_at q = of_pair sol solved d1 d2 q

  only_pair-of_pair :
      (b : Board) (q : Place)
      → InTable q
      → Keeps sol b
      → only_pair_present d1 d2 (b q) ≡ true
      → pair_at q ≡ true
  unfolding only_pair_present
  only_pair-of_pair b q at_q keeps h =
      let (low, high) = digit-range sol solved q at_q in
      let digit : 1 + (sol q - 1) ≡ sol q = omega (arith, low) in
      let only : only_pair_from d1 d2 1 (b q).marks ≡ true = ground (arith, h) in
      let found =
        only_pair_from-left d1 d2 1 (sol q - 1) (b q).marks only
          (mark→entry (b q) (sol q) (keeps q at_q)) in
      rw (← digit) found

  -- The places of the pair have nothing else left.
  abbrev Paired : Board → List Place → Type 0
  Paired b qs = All (λ q. pair_at q ≡ true → only_pair_present d1 d2 (b q) ≡ true) qs

  Paired-taken :
      (d : ℕ) (p : Place) (qs : List Place) (b : Board)
      → pair_at p ≡ false
      → Paired b qs
      → Paired (taken d p b) qs
  Paired-taken d p [] b ne h = tt
  Paired-taken d p (q ∷ qs) b ne (h, hs) = (
    λ pair. elim (Bool-cases (same p q)) [
      | inl e ↦
          let here : pair_at p ≡ true = ap pair_at (same→≡ p q e) ∙ pair in
          absurd (ground (arith, ne, here))
      | inr e ↦ rw (taken_other d p q b e) (h pair)
    ],
    Paired-taken d p qs b ne hs,
  )

  module _ (low1 : 1 ≤ d1) (high1 : d1 ≤ digits) (low2 : 1 ≤ d2) (high2 : d2 ≤ digits) where
    take_pair-Keeps :
        (qs : List Place) (b : Board) (e : Bool)
        → All InTable qs
        → Paired b qs
        → Keeps sol b
        → Keeps sol (take_pair d1 d2 qs b e).0
    unfolding take_pair
    take_pair-Keeps [] b e inside paired keeps = keeps
    take_pair-Keeps (q ∷ qs) b e (at_q, inside) (pair, paired) keeps =
        let b1 = taken d1 q b in
        let b2 = taken d2 q b1 in
        elim (Bool-cases (only_pair_present d1 d2 (b q))) [
          | inl only ↦ rw (take_pair, only) (take_pair-Keeps qs b e inside paired keeps)
          | inr more ↦ elim (Bool-cases (pair_at q)) [
            | inl here ↦ absurd (ground (arith, more, pair here))
            | inr other ↦
                let keeps1 =
                  taken-Keeps sol solved d1 low1 high1 q b at_q (ground (arith, other)) keeps in
                let keeps2 =
                  taken-Keeps sol solved d2 low2 high2 q b1 at_q (ground (arith, other)) keeps1 in
                rw (take_pair, more)
                  (take_pair-Keeps qs b2 (e || mark (b q) d1 || mark (b1 q) d2) inside
                    (Paired-taken d2 q qs b1 other (Paired-taken d1 q qs b other paired)) keeps2)
          ]
        ]

    pub same_pair-Good :
        (qs : List Place) (b : Board)
        → Once sol solved d1 qs
        → Once sol solved d2 qs
        → Keeps sol b
        → Good sol digits2 (same_pair d1 d2 qs b)
    unfolding same_pair
    same_pair-Good qs b once1 once2 keeps =
        let only = λ (q : Place). only_pair_present d1 d2 (b q) in
        elim (Bool-cases (d1 == d2 || not (count_if only qs == 2))) [
          | inl stop ↦ rw (same_pair, stop) (keeps, undetermined-bound b)
          | inr go ↦
              let ne : d1 ≢ d2 = λ equal. ground (arith, go, equal) in
              let two : count_if only qs ≡ 2 = ground (arith, go) in
              let paired =
                count_if-same only pair_at qs once1.0
                  (λ q at_q h. only_pair-of_pair b q at_q keeps h)
                  (omega (arith, two, pair_count sol solved d1 d2 qs ne once1 once2)) in
              rw (same_pair, go)
                (
                  take_pair-Keeps qs b false once1.0 paired keeps,
                  undetermined-bound (take_pair d1 d2 qs b false).0,
                )
        ]
