-- ===== src/Script/Board/Progress.antt =====
-- Every call on a board comes to an end, and takes a digit away if it says that it changed
-- something: what bounds the loops over the rules.
use gtksudoku.Prelude.{
  ℕ, zero, suc, ◌+◌, ◌-◌, ◌≤◌, ◌<◌, ◌≡◌, refl, Bool, true, false, not, ◌&&◌, ◌||◌, arith,
}
use gtksudoku.Prelude.{
  List, [], ◌∷◌, ◌==◌, if◌then◌else◌, Bool-cases, Option-cases, inl, inr, get_or, set, ltb,
}
use gtksudoku.Constants.{digits}
use gtksudoku.Script.Cell.{Cell, singleton, singleton_from, unknowns, unknowns_from, first}
use gtksudoku.Script.Board.{
  Place, Board, same, put, mark, clear, square, row, column, Result, ok, raised, out_of_fuel,
}
use gtksudoku.Script.Board.{then_with, influence, finish, house, propagate_by, determine}
use gtksudoku.Script.Board.Loops.{struck}
use gtksudoku.Script.Board.Count.{
  undetermined, open_cell, left, total-put-le, total-put-lt, undetermined-put,
}
use gtksudoku.Script.Board.Entries.{mark→entry}
use gtksudoku.Script.Board.Houses.{square-InTable, row-InTable, column-InTable}
use gtksudoku.Script.Solution.{InTable, All}

abbrev pub one : Bool → ℕ
one e = if e then 1 else 0

-- A board with no more than `m` cells to determine, and no more than `n` digits left, one less if it
-- was changed.
abbrev pub Within : ℕ → ℕ → Board → Bool → Type 0
Within m n b e = (undetermined b ≤ m) × (left b + one e ≤ n)

-- A call that ends, on such a board or by an error.
abbrev pub Moves : ℕ → ℕ → Result → Type 0
Moves m n (ok b e) = Within m n b e
Moves m n (raised w b) = Unit
Moves m n out_of_fuel = ⊥

pub Moves-le : (m n m' n' : ℕ) (r : Result) → m ≤ m' → n ≤ n' → Moves m n r → Moves m' n' r
Moves-le m n m' n' (ok b e) p q (h, k) = (omega (arith, p, h), omega (arith, q, k))
Moves-le m n m' n' (raised w b) p q h = tt
Moves-le m n m' n' out_of_fuel p q h = h

pub Moves-then_with :
    (m m' n n' : ℕ) (r : Result) (k : Board → Bool → Result)
    → Moves m n r
    → ((b : Board) (e : Bool) → Within m n b e → Moves m' n' (k b e))
    → Moves m' n' (then_with r k)
Moves-then_with m m' n n' (ok b e) k h next = next b e h
Moves-then_with m m' n n' (raised w b) k h next = tt
Moves-then_with m m' n n' out_of_fuel k h next = absurd h

-- Two answers, the later of which is about what the earlier left.
pub one-or : (f e : Bool) → one (f || e) ≤ one f + one e
one-or true e = omega arith
one-or false e = omega arith

unknowns_from-set :
    (ms : List Bool) (i : ℕ)
    → get_or ms i false ≡ true
    → unknowns_from (set ms i false) < unknowns_from ms
unfolding unknowns_from
unknowns_from-set [] i h = absurd (ground (arith, h))
unknowns_from-set (m ∷ ms) zero h = ground (arith, h)
unknowns_from-set (m ∷ ms) (suc i) h = ground (arith, unknowns_from-set ms i h)

pub unknowns-clear : (d : ℕ) (x : Cell) → mark x d ≡ true → unknowns (clear d x) < unknowns x
unfolding unknowns clear
unknowns-clear d x h = unknowns_from-set x.marks (d - 1) (mark→entry x d h)

unknowns_from-singleton_from :
    (d i : ℕ) (ms : List Bool)
    → unknowns_from (singleton_from d i ms).0 + one (singleton_from d i ms).1 ≤ unknowns_from ms
unfolding unknowns_from singleton_from
unknowns_from-singleton_from d i [] = omega arith
unknowns_from-singleton_from d i (m ∷ ms) =
    let rest = unknowns_from-singleton_from d (i + 1) ms in ground (arith, rest)

pub unknowns-singleton :
    (d : ℕ) (x : Cell) → unknowns (singleton d x).0 + one (singleton d x).1 ≤ unknowns x
unfolding unknowns singleton
unknowns-singleton d x = unknowns_from-singleton_from d 1 x.marks

-- A write that takes a digit away if it says so.
pub put-Within :
    (m n : ℕ) (b : Board) (p : Place) (x : Cell) (e f : Bool)
    → InTable p
    → open_cell x ≤ open_cell (b p)
    → unknowns x + one f ≤ unknowns (b p)
    → Within m n b e
    → Within m n (put b p x) (e || f)
unfolding undetermined left
put-Within m n b p x e true inside same_flag less (few, some_left) =
    let fewer = total-put-le open_cell b p x same_flag in
    let lost = total-put-lt unknowns b p x inside (omega (arith, less)) in
    (omega (arith, few, fewer), ground (arith, some_left, lost))
put-Within m n b p x e false inside same_flag less (few, some_left) =
    let fewer = total-put-le open_cell b p x same_flag in
    let kept = total-put-le unknowns b p x (omega (arith, less)) in
    (omega (arith, few, fewer), ground (arith, some_left, kept))

pub clear-Within :
    (m n d : ℕ) (q : Place) (b : Board) (e : Bool)
    → InTable q
    → mark (b q) d ≡ true
    → Within m n b e
    → Within m n (put b q (clear d (b q))) (e || true)
unfolding clear
clear-Within m n d q b e inside hit within =
    let less = unknowns-clear d (b q) hit in
    put-Within m n b q (clear d (b q)) e true inside (omega arith) (omega (arith, less)) within

struck-Within :
    (m n d : ℕ) (p q : Place) (b : Board) (e : Bool)
    → InTable q
    → Within m n b e
    → Within m n (struck d p q b) (e || (not (same p q) && mark (b q) d))
struck-Within m n d p q b e inside within = elim (Bool-cases (not (same p q) && mark (b q) d)) [
  | inl hit ↦ rw hit (clear-Within m n d q b e inside (ground (arith, hit)) within)
  | inr miss ↦ let e' : (e || false) ≡ e = ground arith in rw (miss, e') within
]

influence-Within :
    (m n d : ℕ) (p : Place) (qs : List Place) (b : Board) (e : Bool) (k : ℕ)
    → All InTable qs
    → Within m n b e
    → let r = influence d p qs b e k in Within m n r.0 r.1
unfolding influence
influence-Within m n d p [] b e k inside within = within
influence-Within m n d p (q ∷ qs) b e k (here, inside) within =
    let b' = struck d p q b in
    influence-Within m n d p qs b' (e || (not (same p q) && mark (b q) d))
      (if (b' q).determined then k + 1 else k) inside (struck-Within m n d p q b e here within)

-- A method that is given a place.
abbrev Mover : ℕ → (Place → Board → Result) → Type 0
Mover m method =
    (q : Place) (b : Board) → InTable q → undetermined b ≤ m → Moves m (left b) (method q b)

finish-Moves :
    (m n : ℕ) (propagate : Place → Board → Result) (qs : List Place) (b : Board) (e : Bool)
    → Mover m propagate
    → All InTable qs
    → Within m n b e
    → Moves m n (finish propagate qs b e)
unfolding finish
finish-Moves m n propagate [] b e mover inside within = within
finish-Moves m n propagate (q ∷ qs) b e mover (here, inside) within =
    elim (Bool-cases (b q).determined) [
      | inl d ↦ rw (finish, d) (finish-Moves m n propagate qs b e mover inside within)
      | inr d ↦
          rw (finish, d)
            (Moves-then_with m m (left b) n (propagate q b)
              (λ b' f. finish propagate qs b' (f || e)) (mover q b here within.0)
              (λ b' f (few, fewer).
                finish-Moves m n propagate qs b' (f || e) mover inside
                  (few, omega (arith, fewer, within.1, one-or f e))))
    ]

house-Moves :
    (m n : ℕ) (propagate : Place → Board → Result) (p : Place) (d : ℕ) (qs : List Place) (b : Board)
    (e : Bool)
    → Mover m propagate
    → All InTable qs
    → Within m n b e
    → Moves m n (house propagate p d qs b e)
unfolding house
house-Moves m n propagate p d qs b e mover inside within =
    let r = influence d p qs b e 0 in
    let within' = influence-Within m n d p qs b e 0 inside within in
    elim (Bool-cases (r.2 == digits - 1)) [
      | inl full ↦ rw (house, full) (finish-Moves m n propagate qs r.0 r.1 mover inside within')
      | inr partly ↦ rw (house, partly) within'
    ]

pub propagate_by-Moves :
    (m : ℕ) (method : Place → ℕ → Board → Result)
    → ((d : ℕ) → Mover m (λ q. method q d))
    → Mover m (propagate_by method)
unfolding propagate_by
propagate_by-Moves m method mover q b inside few =
    elim (Bool-cases (ltb 1 (unknowns (b q)) || (b q).determined)) [
      | inl stop ↦ rw (propagate_by, stop) (few, omega arith)
      | inr go ↦ elim (Option-cases (first (b q))) [
        | inl nothing ↦ rw (propagate_by, go, nothing) tt
        | inr (d, found) ↦ rw (propagate_by, go, found) (mover d q b inside few)
      ]
    ]

abbrev houses : (Place → Board → Result) → Place → ℕ → Board → Bool → Result
houses propagate p d b e = then_with (house propagate p d (square p) b e) (λ b2 e2.
    then_with (house propagate p d (row p) b2 e2) (λ b3 e3. house propagate p d (column p) b3 e3))

houses-Moves :
    (m n : ℕ) (propagate : Place → Board → Result) (p : Place) (d : ℕ) (b : Board) (e : Bool)
    → Mover m propagate
    → InTable p
    → Within m n b e
    → Moves m n (houses propagate p d b e)
houses-Moves m n propagate p d b e mover inside within =
    let run = house propagate p d in
    Moves-then_with m m n n (run (square p) b e)
      (λ b2 e2. then_with (run (row p) b2 e2) (λ b3 e3. run (column p) b3 e3))
      (house-Moves m n propagate p d (square p) b e mover (square-InTable p inside) within)
      (λ b2 e2 within2.
        Moves-then_with m m n n (run (row p) b2 e2) (λ b3 e3. run (column p) b3 e3)
          (house-Moves m n propagate p d (row p) b2 e2 mover (row-InTable p inside) within2)
          (λ b3 e3. house-Moves m n propagate p d (column p) b3 e3 mover (column-InTable p inside)))

-- The cell that `determine` makes.
made-Within :
    (b : Board) (p : Place) (d : ℕ)
    → InTable p
    → let made = singleton d (b p) in
      left (put b p (record made.0 { determined = true })) + one made.1 ≤ left b
unfolding unknowns
made-Within b p d inside =
    let made = singleton d (b p) in
    let x : Cell = record made.0 { determined = true } in
    (put-Within (undetermined b) (left b) b p x false made.1 inside (omega arith)
      (unknowns-singleton d (b p)) (omega arith, omega arith)).1

-- Whatever the board and the digit: for a place of the table, and with fuel above the number of
-- cells that are not determined, `determine` returns or raises its error. If it returns, no more
-- cells are undetermined and no more digits are left, and fewer are if it answers true.
pub determine-Moves :
    (fuel : ℕ) (p : Place) (d : ℕ) (b : Board)
    → InTable p
    → undetermined b < fuel
    → Moves (undetermined b) (left b) (determine fuel p d b)
unfolding determine
determine-Moves zero p d b inside enough = absurd (omega (arith, enough))
determine-Moves (suc fuel) p d b inside enough =
    elim (Bool-cases (not (mark (b p) d) || (b p).determined)) [
      | inl stop ↦ rw (determine, stop) (omega arith, omega arith)
      | inr go ↦
          let made = singleton d (b p) in
          let x : Cell = record made.0 { determined = true } in
          let b1 = put b p x in
          let less : undetermined b1 < undetermined b =
            undetermined-put b p x inside (ground (arith, go)) refl in
          let within = made-Within b p d inside in
          let deeper =
            λ (k : ℕ) (q : Place) (b' : Board) (at : InTable q)
                (few : undetermined b' ≤ undetermined b1).
              Moves-le (undetermined b') (left b') (undetermined b1) (left b')
                (determine fuel q k b') few (omega arith)
                (determine-Moves fuel q k b' at (omega (arith, few, less, enough))) in
          rw (determine, go)
            (Moves-le (undetermined b1) (left b) (undetermined b) (left b)
              (houses (propagate_by (determine fuel)) p d b1 made.1) (omega (arith, less))
              (omega arith)
              (houses-Moves (undetermined b1) (left b) (propagate_by (determine fuel)) p d b1 made.1
                (propagate_by-Moves (undetermined b1) (determine fuel) deeper) inside
                (omega arith, within)))
    ]
