-- ===== src/Script/Strategies/Trials.antt =====
-- What holds of every rule that `Board:all` tries.
use gtksudoku.Prelude.{ℕ, arith, List, [], ◌∷◌, ◌++◌, ◌==◌, Bool-cases, inl, inr}
use gtksudoku.Script.Board.{Board, Result}
use gtksudoku.Script.Crossing.{
  one_row_in_square, one_column_in_square, one_square_for_row, one_square_for_column,
}
use gtksudoku.Script.Pairs.{
  two_places_for_pair_in_square, two_places_for_pair_in_row, two_places_for_pair_in_column,
}
use gtksudoku.Script.Pairs.{same_pair_in_square, same_pair_in_row, same_pair_in_column}
use gtksudoku.Script.Pairs.Laws.{InDigits}
use gtksudoku.Script.Strategies.{
  Trial, each, one_to_nine, crossing_trials, column_trials, row_trials, square_trials, pair_trials,
  trials, simp_rules,
}

module _ (P : (Board → Result) → Type 0) where
  abbrev pub AllTrials : List Trial → Type 0
  AllTrials [] = Unit
  AllTrials (t ∷ ts) = P t.rule × AllTrials ts

  append : (ts us : List Trial) → AllTrials ts → AllTrials us → AllTrials (ts ++ us)
  append [] us h k = k
  append (t ∷ ts) us (here, h) k = (here, append ts us h k)

  abbrev Digits : List ℕ → Type 0
  Digits [] = Unit
  Digits (n ∷ ns) = InDigits n × Digits ns

  each_of :
      (ns : List ℕ) (f : ℕ → List Trial)
      → Digits ns
      → ((n : ℕ) → InDigits n → AllTrials (f n))
      → AllTrials (each ns f)
  unfolding each
  each_of [] f inside h = tt
  each_of (n ∷ ns) f (here, inside) h = append (f n) (each ns f) (h n here) (each_of ns f inside h)

  each_digit :
      (f : ℕ → List Trial)
      → ((n : ℕ) → InDigits n → AllTrials (f n))
      → AllTrials (each one_to_nine f)
  each_digit f h =
      let one : InDigits 1 = (omega arith, omega arith) in
      let two : InDigits 2 = (omega arith, omega arith) in
      let three : InDigits 3 = (omega arith, omega arith) in
      let four : InDigits 4 = (omega arith, omega arith) in
      let five : InDigits 5 = (omega arith, omega arith) in
      let six : InDigits 6 = (omega arith, omega arith) in
      let seven : InDigits 7 = (omega arith, omega arith) in
      let eight : InDigits 8 = (omega arith, omega arith) in
      let nine : InDigits 9 = (omega arith, omega arith) in
      each_of one_to_nine f
        (one, (two, (three, (four, (five, (six, (seven, (eight, (nine, tt))))))))) h

  -- What holds of `simp` and of each rule for digits, rows and columns from 1 to 9.
  module _ (simple : P simp_rules)
      (crossing : (d r c : ℕ)
        → InDigits d
        → InDigits r
        → InDigits c
        → P (one_row_in_square d r c)
          × P (one_column_in_square d r c)
          × P (one_square_for_row d r c)
          × P (one_square_for_column d r c))
      (pairs : (d1 d2 r c : ℕ)
        → InDigits d1
        → InDigits d2
        → InDigits r
        → InDigits c
        → P (two_places_for_pair_in_square d1 d2 r c)
          × P (two_places_for_pair_in_row d1 d2 r)
          × P (two_places_for_pair_in_column d1 d2 c)
          × P (same_pair_in_square d1 d2 r c)
          × P (same_pair_in_row d1 d2 r)
          × P (same_pair_in_column d1 d2 c)) where
    crossing_all :
        (d r c : ℕ) → InDigits d → InDigits r → InDigits c → AllTrials (crossing_trials d r c)
    unfolding crossing_trials
    crossing_all d r c i j k =
        let (one, two, three, four) = crossing d r c i j k in (one, (two, (three, (four, tt))))

    pair_all : (d1 d2 : ℕ) → InDigits d1 → InDigits d2 → AllTrials (pair_trials d1 d2)
    unfolding pair_trials column_trials row_trials square_trials
    pair_all d1 d2 i j = elim (Bool-cases (d1 == d2)) [
      | inl e ↦ rw (pair_trials, e) tt
      | inr e ↦
          rw (pair_trials, e)
            (append (each one_to_nine (column_trials d1 d2))
              (each one_to_nine
                (λ r. row_trials d1 d2 r ++ each one_to_nine (square_trials d1 d2 r)))
              (each_digit (column_trials d1 d2)
                (λ c k. let all = pairs d1 d2 c c i j k k in (all.2, (all.5, tt))))
              (each_digit (λ r. row_trials d1 d2 r ++ each one_to_nine (square_trials d1 d2 r))
                (λ r k.
                  append (row_trials d1 d2 r) (each one_to_nine (square_trials d1 d2 r))
                    (let all = pairs d1 d2 r r i j k k in (all.1, (all.4, tt)))
                    (each_digit (square_trials d1 d2 r)
                      (λ c l. let all = pairs d1 d2 r c i j k l in (all.0, (all.3, tt)))))))
    ]

    pub trials-AllTrials : AllTrials trials
    unfolding trials
    trials-AllTrials = (
      simple,
      append
          (each one_to_nine (λ d. each one_to_nine (λ r. each one_to_nine (crossing_trials d r))))
          (each one_to_nine (λ d1. each one_to_nine (pair_trials d1)))
          (each_digit (λ d. each one_to_nine (λ r. each one_to_nine (crossing_trials d r)))
            (λ d i.
              each_digit (λ r. each one_to_nine (crossing_trials d r))
                (λ r j. each_digit (crossing_trials d r) (λ c k. crossing_all d r c i j k))))
          (each_digit (λ d1. each one_to_nine (pair_trials d1))
            (λ d1 i. each_digit (pair_trials d1) (λ d2 j. pair_all d1 d2 i j))),
    )
