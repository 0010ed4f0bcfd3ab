-- ===== src/Script/Pairs/Places.antt =====
-- Two places for a pair: the loop keeps the solution of a puzzle.
use gtksudoku.Prelude.{ℕ, zero, suc, ◌+◌, ◌-◌, ◌≡◌, ◌≢◌, Bool, true, false, not, ◌||◌, arith}
use gtksudoku.Prelude.{List, [], ◌∷◌, ◌==◌, ==→≡, count_if, Bool-cases, inl, inr, get_or}
use gtksudoku.Script.Board.{Place, Board, mark, put}
use gtksudoku.Script.Board.Count.{undetermined-bound}
use gtksudoku.Script.Board.Entries.{mark→entry, entry→mark, entries-mark}
use gtksudoku.Script.Board.Loops.{put-Keeps}
use gtksudoku.Script.Board.Less.{Less, put-Less}
use gtksudoku.Script.Board.Determine.{Good, digit-range}
use gtksudoku.Script.Solution.{InTable, Keeps, All, is_solution}
use gtksudoku.Script.Load.{digits2}
use gtksudoku.Script.Rules.Counts.{count_if-same}
use gtksudoku.Script.Rules.Laws.{Once}
use gtksudoku.Script.Pairs.{narrow_from, narrow, either, leave_pair, two_places_for_pair}

narrow_from-kept :
    (d1 d2 i k : ℕ) (ms : List Bool)
    → (i + k == d1 || i + k == d2) ≡ true
    → get_or ms k false ≡ true
    → get_or (narrow_from d1 d2 i ms).0 k false ≡ true
unfolding narrow_from
narrow_from-kept d1 d2 i k [] e h = h
narrow_from-kept d1 d2 i zero (m ∷ ms) e h = ground (arith, e, h)
narrow_from-kept d1 d2 i (suc k) (m ∷ ms) e h =
    let rest = narrow_from-kept d1 d2 (i + 1) k ms (ground (arith, e)) h in ground (arith, rest)

narrow_from-less :
    (d1 d2 i k : ℕ) (ms : List Bool)
    → get_or (narrow_from d1 d2 i ms).0 k false ≡ true
    → get_or ms k false ≡ true
unfolding narrow_from
narrow_from-less d1 d2 i k [] h = h
narrow_from-less d1 d2 i zero (m ∷ ms) h = ground (arith, h)
narrow_from-less d1 d2 i (suc k) (m ∷ ms) h =
    narrow_from-less d1 d2 (i + 1) k ms (ground (arith, h))

count_if-either :
    (f g : Place → Bool) (qs : List Place)
    → ((q : Place) → f q ≡ true → g q ≡ false)
    → count_if (λ q. f q || g q) qs ≡ count_if f qs + count_if g qs
count_if-either f g [] h = omega arith
count_if-either f g (q ∷ qs) h = elim (Bool-cases (f q)) [
  | inl e ↦ ground (arith, e, h q e, count_if-either f g qs h)
  | inr e ↦ ground (arith, e, count_if-either f g qs h)
]

module _ (sol : Place → ℕ) (solved : is_solution sol ≡ true) (d1 d2 : ℕ) where
  -- The digit of a place is one of the pair.
  abbrev pub of_pair : Place → Bool
  of_pair q = sol q == d1 || sol q == d2

  -- A house has the pair at two places.
  pub pair_count :
      (qs : List Place)
      → d1 ≢ d2
      → Once sol solved d1 qs
      → Once sol solved d2 qs
      → count_if of_pair qs ≡ 2
  pair_count qs ne (in1, one) (in2, two) =
      let both =
        count_if-either (λ q. sol q == d1) (λ q. sol q == d2) qs (λ q h. ground (arith, h, ne)) in
      omega (arith, both, one, two)

  of_pair-either :
      (b : Board) (q : Place) → InTable q → Keeps sol b → of_pair q ≡ true → either d1 d2 b q ≡ true
  of_pair-either b q at_q keeps h = elim (Bool-cases (sol q == d1)) [
    | inl e ↦
        let found : mark (b q) d1 ≡ true = rw (← ==→≡ (sol q) d1 e) (keeps q at_q) in
        ground (arith, found)
    | inr e ↦
        let e' : (sol q == d2) ≡ true = ground (arith, e, h) in
        let found : mark (b q) d2 ≡ true = rw (← ==→≡ (sol q) d2 e') (keeps q at_q) in
        ground (arith, found)
  ]

  -- Only places of the pair have one of its digits left.
  abbrev Reserved : Board → List Place → Type 0
  Reserved b qs = All (λ q. either d1 d2 b q ≡ true → of_pair q ≡ true) qs

  Reserved-Less : (b b' : Board) (qs : List Place) → Less b b' → Reserved b qs → Reserved b' qs
  Reserved-Less b b' [] less h = tt
  Reserved-Less b b' (q ∷ qs) less (h, hs) = (
    λ e. h (elim (Bool-cases (mark (b' q) d1)) [
      | inl one ↦ ground (arith, less q d1 one)
      | inr none_left ↦ let two = less q d2 (ground (arith, e, none_left)) in ground (arith, two)
    ]),
    Reserved-Less b b' qs less hs,
  )

  narrow-Keeps :
      (b : Board) (q : Place)
      → InTable q
      → of_pair q ≡ true
      → Keeps sol b
      → Keeps sol (put b q (narrow d1 d2 (b q)).0)
  unfolding narrow
  narrow-Keeps b q at_q pair keeps =
      let (low, high) = digit-range sol solved q at_q in
      let digit : 1 + (sol q - 1) ≡ sol q = omega (arith, low) in
      let pair' : (1 + (sol q - 1) == d1 || 1 + (sol q - 1) == d2) ≡ true = rw digit pair in
      put-Keeps sol b q (narrow d1 d2 (b q)).0
        (entry→mark (narrow d1 d2 (b q)).0 (sol q) low (
          narrow_from-kept d1 d2 1 (sol q - 1) (b q).marks pair'
            (mark→entry (b q) (sol q) (keeps q at_q))))
        keeps

  narrow-Less : (b : Board) (q : Place) → Less b (put b q (narrow d1 d2 (b q)).0)
  unfolding narrow
  narrow-Less b q = put-Less b q (narrow d1 d2 (b q)).0 (λ k.
      entries-mark (b q) (narrow d1 d2 (b q)).0 k (narrow_from-less d1 d2 1 (k - 1) (b q).marks))

  leave_pair-Keeps :
      (qs : List Place) (b : Board) (e : Bool)
      → All InTable qs
      → Reserved b qs
      → Keeps sol b
      → Keeps sol (leave_pair d1 d2 qs b e).0
  unfolding leave_pair
  leave_pair-Keeps [] b e inside reserved keeps = keeps
  leave_pair-Keeps (q ∷ qs) b e (at_q, inside) (pair, reserved) keeps =
      let b' = put b q (narrow d1 d2 (b q)).0 in
      elim (Bool-cases (either d1 d2 b q)) [
        | inl hit ↦
            rw (leave_pair, hit)
              (leave_pair-Keeps qs b' (e || (narrow d1 d2 (b q)).1) inside
                (Reserved-Less b b' qs (narrow-Less b q) reserved)
                (narrow-Keeps b q at_q (pair hit) keeps))
        | inr miss ↦ rw (leave_pair, miss) (leave_pair-Keeps qs b e inside reserved keeps)
      ]

  pub two_places_for_pair-Good :
      (qs : List Place) (b : Board)
      → Once sol solved d1 qs
      → Once sol solved d2 qs
      → Keeps sol b
      → Good sol digits2 (two_places_for_pair d1 d2 qs b)
  unfolding two_places_for_pair
  two_places_for_pair-Good qs b once1 once2 keeps =
      elim (Bool-cases (d1 == d2 || not (count_if (either d1 d2 b) qs == 2))) [
        | inl stop ↦ rw (two_places_for_pair, stop) (keeps, undetermined-bound b)
        | inr go ↦
            let ne : d1 ≢ d2 = λ equal. ground (arith, go, equal) in
            let two : count_if (either d1 d2 b) qs ≡ 2 = ground (arith, go) in
            let reserved =
              count_if-same of_pair (either d1 d2 b) qs once1.0
                (λ q at_q h. of_pair-either b q at_q keeps h)
                (omega (arith, two, pair_count qs ne once1 once2)) in
            rw (two_places_for_pair, go)
              (
                leave_pair-Keeps qs b false once1.0 reserved keeps,
                undetermined-bound (leave_pair d1 d2 qs b false).0,
              )
      ]
