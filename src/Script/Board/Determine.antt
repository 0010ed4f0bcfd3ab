-- ===== src/Script/Board/Determine.antt =====
-- `determine` keeps a solution of the puzzle, and comes to an end: its fuel is the number of cells
-- that are not determined yet.
use gtksudoku.Prelude.{
  ℕ, zero, suc, ◌+◌, ◌-◌, ◌≤◌, ◌<◌, ◌≡◌, refl, Bool, true, not, ◌||◌, arith, some,
}
use gtksudoku.Prelude.{List, [], ◌∷◌, ◌==◌, ltb, Bool-cases, inl, inr}
use gtksudoku.Constants.{digits}
use gtksudoku.Script.Cell.{Cell, singleton, unknowns, first}
use gtksudoku.Script.Board.{
  Place, Board, put, mark, square, row, column, Result, ok, raised, out_of_fuel,
}
use gtksudoku.Script.Board.{then_with, influence, finish, house, propagate_by, determine}
use gtksudoku.Script.Board.Loops.{Others, influence-Keeps, put-Keeps}
use gtksudoku.Script.Board.Entries.{first_from-only, singleton_from-kept, mark→entry, entry→mark}
use gtksudoku.Script.Board.Houses.{digit-Others, square-InTable, row-InTable, column-InTable}
use gtksudoku.Script.Board.Count.{undetermined, undetermined-SameFlags, undetermined-put}
use gtksudoku.Script.Solution.{InTable, Keeps, All, is_solution, is_solution_lem, is_good}

-- A call that ends without an error on a board that keeps the solution, and that has no more than
-- `n` cells to determine.
abbrev pub Good : (Place → ℕ) → ℕ → Result → Type 0
Good sol n (ok b e) = Keeps sol b × (undetermined b ≤ n)
Good sol n (raised w b) = ⊥
Good sol n out_of_fuel = ⊥

pub Good-le : (sol : Place → ℕ) (m n : ℕ) (r : Result) → m ≤ n → Good sol m r → Good sol n r
Good-le sol m n (ok b e) le (keeps, count) = (keeps, omega (arith, le, count))
Good-le sol m n (raised w b) le h = h
Good-le sol m n out_of_fuel le h = h

pub Good-then_with :
    (sol : Place → ℕ) (n : ℕ) (r : Result) (k : Board → Bool → Result)
    → Good sol n r
    → ((b : Board) (e : Bool) → Keeps sol b → undetermined b ≤ n → Good sol n (k b e))
    → Good sol n (then_with r k)
Good-then_with sol n (ok b e) k (keeps, count) h = h b e keeps count
Good-then_with sol n (raised w b) k g h = absurd g
Good-then_with sol n out_of_fuel k g h = absurd g

-- A method that is given a place and keeps the solution.
abbrev pub Sound : (Place → ℕ) → ℕ → (Place → Board → Result) → Type 0
Sound sol n method =
    (q : Place) (b : Board) → InTable q → Keeps sol b → undetermined b ≤ n → Good sol n (method q b)

module _ (sol : Place → ℕ) (solved : is_solution sol ≡ true) where
  pub digit-range : (p : Place) → InTable p → (1 ≤ sol p) × (sol p ≤ digits)
  unfolding is_good
  digit-range p inside =
      let good = is_solution_lem sol p solved inside in (ground (arith, good), ground (arith, good))

  finish-Good :
      (n : ℕ) (propagate : Place → Board → Result) (qs : List Place) (b : Board) (e : Bool)
      → Sound sol n propagate
      → All InTable qs
      → Keeps sol b
      → undetermined b ≤ n
      → Good sol n (finish propagate qs b e)
  unfolding finish
  finish-Good n propagate [] b e sound inside keeps count = (keeps, count)
  finish-Good n propagate (q ∷ qs) b e sound (here, inside) keeps count =
      elim (Bool-cases (b q).determined) [
        | inl d ↦ rw (finish, d) (finish-Good n propagate qs b e sound inside keeps count)
        | inr d ↦
            rw (finish, d)
              (Good-then_with sol n (propagate q b) (λ b' f. finish propagate qs b' (f || e))
                (sound q b here keeps count)
                (λ b' f keeps' count'.
                  finish-Good n propagate qs b' (f || e) sound inside keeps' count'))
      ]

  house-Good :
      (n : ℕ) (propagate : Place → Board → Result) (p : Place) (d : ℕ) (qs : List Place) (b : Board)
      (e : Bool)
      → Sound sol n propagate
      → 1 ≤ d
      → All InTable qs
      → Others sol d p qs
      → Keeps sol b
      → undetermined b ≤ n
      → Good sol n (house propagate p d qs b e)
  unfolding house
  house-Good n propagate p d qs b e sound one inside others keeps count =
      let r = influence d p qs b e 0 in
      let (keeps', flags) =
        influence-Keeps sol d p qs b e 0 one (λ q h. (digit-range q h).0) inside others keeps in
      let count' : undetermined r.0 ≤ n =
        omega (arith, count, undetermined-SameFlags b r.0 flags) in
      elim (Bool-cases (r.2 == digits - 1)) [
        | inl full ↦
            rw (house, full) (finish-Good n propagate qs r.0 r.1 sound inside keeps' count')
        | inr partly ↦ rw (house, partly) (keeps', count')
      ]

  pub propagate_by-Good :
      (n : ℕ) (method : Place → ℕ → Board → Result)
      → Sound sol n (λ q. method q (sol q))
      → Sound sol n (propagate_by method)
  unfolding propagate_by unknowns first
  propagate_by-Good n method sound q b inside keeps count =
      elim (Bool-cases (ltb 1 (unknowns (b q)) || (b q).determined)) [
        | inl stop ↦ rw (propagate_by, stop) (keeps, count)
        | inr go ↦
            let (one, nine) = digit-range q inside in
            let found : first (b q) ≡ some (1 + (sol q - 1)) =
              first_from-only (b q).marks 1 (sol q - 1) (mark→entry (b q) (sol q) (keeps q inside))
                (ground (arith, go)) in
            let digit : 1 + (sol q - 1) ≡ sol q = omega (arith, one) in
            rw (propagate_by, go, found, digit) (sound q b inside keeps count)
      ]

  -- The three houses of a place, once its cell is determined.
  abbrev houses : (Place → Board → Result) → Place → Board → Bool → Result
  houses propagate p b e = then_with (house propagate p (sol p) (square p) b e) (λ b2 e2.
      then_with (house propagate p (sol p) (row p) b2 e2)
        (λ b3 e3. house propagate p (sol p) (column p) b3 e3))

  houses-Good :
      (n : ℕ) (propagate : Place → Board → Result) (p : Place) (b : Board) (e : Bool)
      → Sound sol n propagate
      → InTable p
      → Keeps sol b
      → undetermined b ≤ n
      → Good sol n (houses propagate p b e)
  houses-Good n propagate p b e sound inside keeps count =
      let (one, nine, in_square, in_row, in_column) = digit-Others sol solved p inside in
      let run = house propagate p (sol p) in
      Good-then_with sol n (run (square p) b e)
        (λ b2 e2. then_with (run (row p) b2 e2) (λ b3 e3. run (column p) b3 e3))
        (house-Good n propagate p (sol p) (square p) b e sound one (square-InTable p inside)
          in_square keeps count)
        (λ b2 e2 keeps2 count2.
          Good-then_with sol n (run (row p) b2 e2) (λ b3 e3. run (column p) b3 e3)
            (house-Good n propagate p (sol p) (row p) b2 e2 sound one (row-InTable p inside) in_row
              keeps2 count2)
            (λ b3 e3 keeps3 count3.
              house-Good n propagate p (sol p) (column p) b3 e3 sound one (column-InTable p inside)
                in_column keeps3 count3))

  -- The cell that `determine` makes.
  abbrev made : Place → Board → Cell × Bool
  made p b = singleton (sol p) (b p)

  abbrev start : Place → Board → Board
  start p b = put b p (record (made p b).0 { determined = true })

  made-mark : (p : Place) (b : Board) → InTable p → Keeps sol b → mark (made p b).0 (sol p) ≡ true
  unfolding singleton
  made-mark p b inside keeps =
      let (one, nine) = digit-range p inside in
      entry→mark (made p b).0 (sol p) one (
        singleton_from-kept (sol p) 1 (sol p - 1) (b p).marks (omega (arith, one))
          (mark→entry (b p) (sol p) (keeps p inside)))

  start-Keeps : (p : Place) (b : Board) → InTable p → Keeps sol b → Keeps sol (start p b)
  unfolding mark singleton
  start-Keeps p b inside keeps =
      put-Keeps sol b p (record (made p b).0 { determined = true }) (made-mark p b inside keeps)
        keeps

  -- Nor does `singleton` alone take the digit away.
  pub narrow-Keeps :
      (p : Place) (b : Board)
      → InTable p
      → Keeps sol b
      → Keeps sol (put b p (singleton (sol p) (b p)).0)
  unfolding singleton
  narrow-Keeps p b inside keeps = put-Keeps sol b p (made p b).0 (made-mark p b inside keeps) keeps

  -- On a board on which the digits of a solution of the puzzle are left, `determine` for a place of the
  -- table and the digit of the solution there returns, without an error, and leaves a board on which
  -- they are still left, and no more cells undetermined. Fuel above the number of undetermined cells
  -- suffices.
  pub determine-Good :
      (fuel : ℕ) (p : Place) (b : Board)
      → InTable p
      → Keeps sol b
      → undetermined b < fuel
      → Good sol (undetermined b) (determine fuel p (sol p) b)
  unfolding determine
  determine-Good zero p b inside keeps enough = absurd (omega (arith, enough))
  determine-Good (suc fuel) p b inside keeps enough =
      elim (Bool-cases (not (mark (b p) (sol p)) || (b p).determined)) [
        | inl stop ↦ rw (determine, stop) (keeps, omega arith)
        | inr go ↦
            let b1 = start p b in
            let less : undetermined b1 < undetermined b =
              undetermined-put b p (record (made p b).0 { determined = true }) inside
                (ground (arith, go)) refl in
            let deeper : Sound sol (undetermined b1) (λ q. determine fuel q (sol q)) =
              λ q b' inside' keeps' count'.
                Good-le sol (undetermined b') (undetermined b1) (determine fuel q (sol q) b') count'
                  (determine-Good fuel q b' inside' keeps' (omega (arith, count', less, enough))) in
            let sound = propagate_by-Good (undetermined b1) (determine fuel) deeper in
            rw (determine, go)
              (Good-le sol (undetermined b1) (undetermined b)
                (houses (propagate_by (determine fuel)) p b1 (made p b).1) (omega (arith, less))
                (houses-Good (undetermined b1) (propagate_by (determine fuel)) p b1 (made p b).1
                  sound inside (start-Keeps p b inside keeps) (omega arith)))
      ]
