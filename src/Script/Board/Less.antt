-- ===== src/Script/Board/Less.antt =====
-- Boards and cells compared by the digits that are left, in src/sudoku.lua.
use gtksudoku.Prelude.{ℕ, zero, suc, ◌+◌, ◌-◌, ◌≡◌, Bool, true, false, not, ◌&&◌, ◌||◌, arith}
use gtksudoku.Prelude.{
  List, [], ◌∷◌, ◌==◌, ltb, if◌then◌else◌, Bool-cases, Option-cases, inl, inr, get_or, set,
}
use gtksudoku.Constants.{digits}
use gtksudoku.Script.Cell.{Cell, singleton, singleton_from, unknowns, first}
use gtksudoku.Script.Board.{
  Place, Board, same, put, mark, clear, square, row, column, Result, ok, raised, out_of_fuel,
}
use gtksudoku.Script.Board.{then_with, influence, finish, house, propagate_by, determine}
use gtksudoku.Script.Board.Entries.{entries-mark}
use gtksudoku.Script.Board.Loops.{struck}
use gtksudoku.Script.Solution.{same→≡}

-- Every digit that is left was left before.
abbrev pub Less : Board → Board → Type 0
Less b b' = (q : Place) (d : ℕ) → mark (b' q) d ≡ true → mark (b q) d ≡ true

pub Less-trans : (a b c : Board) → Less a b → Less b c → Less a c
Less-trans a b c h k q d e = h q d (k q d e)

abbrev pub LessCell : Cell → Cell → Type 0
LessCell x y = (d : ℕ) → mark y d ≡ true → mark x d ≡ true

-- However a call ends.
abbrev pub Ends : Board → Result → Type 0
Ends a (ok b e) = Less a b
Ends a (raised w b) = Less a b
Ends a out_of_fuel = Unit

Ends-from : (a b : Board) (r : Result) → Less a b → Ends b r → Ends a r
Ends-from a b (ok c e) h k = Less-trans a b c h k
Ends-from a b (raised w c) h k = Less-trans a b c h k
Ends-from a b out_of_fuel h k = tt

pub Ends-then_with :
    (a : Board) (r : Result) (k : Board → Bool → Result)
    → Ends a r
    → ((b : Board) (e : Bool) → Ends b (k b e))
    → Ends a (then_with r k)
Ends-then_with a (ok b e) k h next = Ends-from a b (k b e) h (next b e)
Ends-then_with a (raised w b) k h next = h
Ends-then_with a out_of_fuel k h next = tt

get_or-set-false :
    (ms : List Bool) (i j : ℕ) → get_or (set ms i false) j false ≡ true → get_or ms j false ≡ true
get_or-set-false [] i j h = h
get_or-set-false (m ∷ ms) zero zero h = absurd (ground (arith, h))
get_or-set-false (m ∷ ms) zero (suc j) h = h
get_or-set-false (m ∷ ms) (suc i) zero h = h
get_or-set-false (m ∷ ms) (suc i) (suc j) h = get_or-set-false ms i j h

pub clear-LessCell : (d : ℕ) (x : Cell) → LessCell x (clear d x)
unfolding clear
clear-LessCell d x k h = entries-mark x (clear d x) k (get_or-set-false x.marks (d - 1) (k - 1)) h

pub singleton_from-less :
    (d i k : ℕ) (ms : List Bool)
    → get_or (singleton_from d i ms).0 k false ≡ true
    → get_or ms k false ≡ true
unfolding singleton_from
singleton_from-less d i k [] h = h
singleton_from-less d i zero (m ∷ ms) h = ground (arith, h)
singleton_from-less d i (suc k) (m ∷ ms) h =
    let rest = singleton_from-less d (i + 1) k ms (ground (arith, h)) in rest

pub put-Less : (b : Board) (p : Place) (x : Cell) → LessCell (b p) x → Less b (put b p x)
unfolding put
put-Less b p x h q d e = elim (Bool-cases (same p q)) [
  | inl here ↦ let e' : mark x d ≡ true = ground (arith, e, here) in rw (← same→≡ p q here) (h d e')
  | inr other ↦ ground (arith, e, other)
]

struck-Less : (d : ℕ) (p q : Place) (b : Board) → Less b (struck d p q b)
struck-Less d p q b = elim (Bool-cases (not (same p q) && mark (b q) d)) [
  | inl hit ↦ rw hit (put-Less b q (clear d (b q)) (clear-LessCell d (b q)))
  | inr miss ↦ rw miss (λ x k h. h)
]

pub influence-Less :
    (d : ℕ) (p : Place) (qs : List Place) (b : Board) (e : Bool) (m : ℕ)
    → Less b (influence d p qs b e m).0
unfolding influence
influence-Less d p [] b e m = λ q k h. h
influence-Less d p (q ∷ qs) b e m =
    let b' = struck d p q b in
    let e' = e || (not (same p q) && mark (b q) d) in
    let m' = if (b' q).determined then m + 1 else m in
    Less-trans b b' (influence d p qs b' e' m').0 (struck-Less d p q b)
      (influence-Less d p qs b' e' m')

-- A method that is given a place.
abbrev pub Shrinks : (Place → Board → Result) → Type 0
Shrinks method = (q : Place) (b : Board) → Ends b (method q b)

pub finish-Less :
    (propagate : Place → Board → Result) (qs : List Place) (b : Board) (e : Bool)
    → Shrinks propagate
    → Ends b (finish propagate qs b e)
unfolding finish
finish-Less propagate [] b e shrinks = λ q d h. h
finish-Less propagate (q ∷ qs) b e shrinks = elim (Bool-cases (b q).determined) [
  | inl d ↦ rw (finish, d) (finish-Less propagate qs b e shrinks)
  | inr d ↦
      rw (finish, d)
        (Ends-then_with b (propagate q b) (λ b' f. finish propagate qs b' (f || e)) (shrinks q b)
          (λ b' f. finish-Less propagate qs b' (f || e) shrinks))
]

house-Less :
    (propagate : Place → Board → Result) (p : Place) (d : ℕ) (qs : List Place) (b : Board)
    (e : Bool)
    → Shrinks propagate
    → Ends b (house propagate p d qs b e)
unfolding house
house-Less propagate p d qs b e shrinks =
    let r = influence d p qs b e 0 in
    let less : Less b r.0 = influence-Less d p qs b e 0 in
    elim (Bool-cases (r.2 == digits - 1)) [
      | inl full ↦
          rw (house, full)
            (Ends-from b r.0 (finish propagate qs r.0 r.1) less
              (finish-Less propagate qs r.0 r.1 shrinks))
      | inr partly ↦ rw (house, partly) less
    ]

pub propagate_by-Less :
    (method : Place → ℕ → Board → Result)
    → ((q : Place) (d : ℕ) (b : Board) → Ends b (method q d b))
    → Shrinks (propagate_by method)
unfolding propagate_by
propagate_by-Less method h q b = elim (Bool-cases (ltb 1 (unknowns (b q)) || (b q).determined)) [
  | inl stop ↦ rw (propagate_by, stop) (λ q d e. e)
  | inr go ↦ elim (Option-cases (first (b q))) [
    | inl nothing ↦ rw (propagate_by, go, nothing) (λ q d e. e)
    | inr (d, found) ↦ rw (propagate_by, go, found) (h q d b)
  ]
]

pub determine-Less : (fuel : ℕ) (p : Place) (d : ℕ) (b : Board) → Ends b (determine fuel p d b)
unfolding determine singleton
determine-Less zero p d b = tt
determine-Less (suc fuel) p d b = elim (Bool-cases (not (mark (b p) d) || (b p).determined)) [
  | inl stop ↦ rw (determine, stop) (λ q d e. e)
  | inr go ↦
      let made : Cell = record (singleton d (b p)).0 { determined = true } in
      let b1 = put b p made in
      let less =
        put-Less b p made
          (λ k. entries-mark (b p) made k (singleton_from-less d 1 (k - 1) (b p).marks)) in
      let shrinks = propagate_by-Less (determine fuel) (determine-Less fuel) in
      let run = house (propagate_by (determine fuel)) p d in
      let e1 = (singleton d (b p)).1 in
      rw (determine, go)
        (Ends-from b b1
          (then_with (run (square p) b1 e1)
            (λ b2 e2. then_with (run (row p) b2 e2) (λ b3 e3. run (column p) b3 e3)))
          less
          (Ends-then_with b1 (run (square p) b1 e1)
            (λ b2 e2. then_with (run (row p) b2 e2) (λ b3 e3. run (column p) b3 e3))
            (house-Less (propagate_by (determine fuel)) p d (square p) b1 e1 shrinks)
            (λ b2 e2.
              Ends-then_with b2 (run (row p) b2 e2) (λ b3 e3. run (column p) b3 e3)
                (house-Less (propagate_by (determine fuel)) p d (row p) b2 e2 shrinks)
                (λ b3 e3.
                  house-Less (propagate_by (determine fuel)) p d (column p) b3 e3 shrinks))))
]
