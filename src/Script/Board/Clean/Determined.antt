-- ===== src/Script/Board/Clean/Determined.antt =====
-- `determine` takes the digit of its cell away from the peers, and from the peers of all the cells
-- that it goes on to.
use gtksudoku.Prelude.{
  ℕ, zero, suc, ◌+◌, ◌-◌, ◌≡◌, refl, sym, ◌∙◌, ap, Bool, true, false, not, ◌&&◌, ◌||◌, arith,
}
use gtksudoku.Prelude.{
  List, [], ◌∷◌, ◌==◌, ltb, if◌then◌else◌, Bool-cases, Option-cases, inl, inr, get_or, set,
}
use gtksudoku.Constants.{digits}
use gtksudoku.Script.Cell.{Cell, singleton, singleton_from, unknowns, first}
use gtksudoku.Script.Board.{Place, Board, same, put, mark, clear, square, row, column, Result}
use gtksudoku.Script.Board.{
  then_with, influence, finish, house, propagate_by, determine, propagate_elimination,
}
use gtksudoku.Script.Board.Entries.{entries-mark, mark→entry}
use gtksudoku.Script.Board.Loops.{struck}
use gtksudoku.Script.Board.Less.{Less-trans, LessCell, put-Less, singleton_from-less}
use gtksudoku.Script.Solution.{has, same→≡, same_refl}
use gtksudoku.Script.Board.Clean.{
  OnOk, OnOk-weaken, OnOk-then_with, Cleared, Less-false, Step, Step-refl, Step-trans, Step-next,
  Stepping, put-Step, clear-Step,
}

-- One round of the loop of `determine`, and the loop: the places lose the digit.
struck-Step : (d : ℕ) (p q : Place) (b : Board) → Step b (struck d p q b)
struck-Step d p q b = elim (Bool-cases (not (same p q) && mark (b q) d)) [
  | inl hit ↦ rw hit (clear-Step b q d)
  | inr miss ↦ rw miss (Step-refl b)
]

get_or-set_same : (ms : List Bool) (i : ℕ) → get_or (set ms i false) i false ≡ false
get_or-set_same [] i = refl
get_or-set_same (m ∷ ms) zero = refl
get_or-set_same (m ∷ ms) (suc i) = get_or-set_same ms i

mark-clear_same : (x : Cell) (d : ℕ) → mark (clear d x) d ≡ false
unfolding mark clear
mark-clear_same x d = ground (arith, get_or-set_same x.marks (d - 1))

put_same : (b : Board) (p : Place) (x : Cell) → put b p x p ≡ x
unfolding put
put_same b p x = rw (same_refl p) refl

struck-loses :
    (d : ℕ) (p q : Place) (b : Board) → same p q ≡ false → mark (struck d p q b q) d ≡ false
struck-loses d p q b other = elim (Bool-cases (mark (b q) d)) [
  | inl hit ↦
      rw (other, hit) (ap (λ x. mark x d) (put_same b q (clear d (b q))) ∙ mark-clear_same (b q) d)
  | inr miss ↦ rw (other, miss) miss
]

-- What the loops over a house leave.
abbrev Through : ℕ → Place → List Place → Board → Board → Type 0
Through d p qs a b =
    Step a b × ((q : Place) → has q qs ≡ true → same p q ≡ false → mark (b q) d ≡ false)

influence-Through :
    (d : ℕ) (p : Place) (qs : List Place) (b : Board) (e : Bool) (m : ℕ)
    → Through d p qs b (influence d p qs b e m).0
unfolding influence
influence-Through d p [] b e m = (Step-refl b, λ q h other. absurd (ground (arith, h)))
influence-Through d p (q ∷ qs) b e m =
    let b1 = struck d p q b in
    let e1 = e || (not (same p q) && mark (b q) d) in
    let m1 = if (b1 q).determined then m + 1 else m in
    let b2 = (influence d p qs b1 e1 m1).0 in
    let (step, gone) = influence-Through d p qs b1 e1 m1 in
    (
      Step-trans b b1 b2 (struck-Step d p q b) step,
      λ k member other. elim (Bool-cases (same k q)) [
        | inl here ↦
            let lost : mark (b1 q) d ≡ false =
              struck-loses d p q b (rw (← same→≡ k q here) other) in
            rw (same→≡ k q here) (Less-false b1 b2 q d step.0 lost)
        | inr there ↦ gone k (ground (arith, member, there)) other
      ],
    )

-- A method that is given a place.
abbrev Steps : (Place → Board → Result) → Type 0
Steps method = (q : Place) (b : Board) → OnOk (Step b) (method q b)

finish-Step :
    (propagate : Place → Board → Result) (qs : List Place) (b : Board) (e : Bool)
    → Steps propagate
    → OnOk (Step b) (finish propagate qs b e)
unfolding finish
finish-Step propagate [] b e steps = Step-refl b
finish-Step propagate (q ∷ qs) b e steps = elim (Bool-cases (b q).determined) [
  | inl d ↦ rw (finish, d) (finish-Step propagate qs b e steps)
  | inr d ↦
      rw (finish, d)
        (OnOk-then_with (Step b) (Step b) (propagate q b) (λ b' f. finish propagate qs b' (f || e))
          (steps q b)
          (λ b' f step.
            Step-next b b' (finish propagate qs b' (f || e)) step
              (finish-Step propagate qs b' (f || e) steps)))
]

Through-Step :
    (d : ℕ) (p : Place) (qs : List Place) (a b c : Board)
    → Through d p qs a b
    → Step b c
    → Through d p qs a c
Through-Step d p qs a b c (step, gone) step' = (
  Step-trans a b c step step',
  λ q member other. Less-false b c q d step'.0 (gone q member other),
)

house-Through :
    (propagate : Place → Board → Result) (p : Place) (d : ℕ) (qs : List Place) (b : Board)
    (e : Bool)
    → Steps propagate
    → OnOk (Through d p qs b) (house propagate p d qs b e)
unfolding house
house-Through propagate p d qs b e steps =
    let r = influence d p qs b e 0 in
    let through : Through d p qs b r.0 = influence-Through d p qs b e 0 in
    elim (Bool-cases (r.2 == digits - 1)) [
      | inl full ↦
          rw (house, full)
            (OnOk-weaken (Step r.0) (Through d p qs b) (finish propagate qs r.0 r.1)
              (λ c. Through-Step d p qs b r.0 c through) (finish-Step propagate qs r.0 r.1 steps))
      | inr partly ↦ rw (house, partly) through
    ]

propagate_by-Step :
    (method : Place → ℕ → Board → Result)
    → ((q : Place) (d : ℕ) (b : Board) → OnOk (Step b) (method q d b))
    → Steps (propagate_by method)
unfolding propagate_by
propagate_by-Step method h q b = elim (Bool-cases (ltb 1 (unknowns (b q)) || (b q).determined)) [
  | inl stop ↦ rw (propagate_by, stop) (Step-refl b)
  | inr go ↦ elim (Option-cases (first (b q))) [
    | inl nothing ↦ rw (propagate_by, go, nothing) tt
    | inr (d, found) ↦ rw (propagate_by, go, found) (h q d b)
  ]
]

singleton_from-only :
    (d i k : ℕ) (ms : List Bool) → get_or (singleton_from d i ms).0 k false ≡ true → i + k ≡ d
unfolding singleton_from
singleton_from-only d i k [] h = absurd (ground (arith, h))
singleton_from-only d i zero (m ∷ ms) h = ground (arith, h)
singleton_from-only d i (suc k) (m ∷ ms) h =
    let rest = singleton_from-only d (i + 1) k ms (ground (arith, h)) in omega (arith, rest)

-- The cell that `determine` writes, with its one digit.
abbrev made : ℕ → Cell → Cell
made d x = record (singleton d x).0 { determined = true }

made-only : (d k : ℕ) (x : Cell) → mark (made d x) k ≡ true → k ≡ d
unfolding singleton mark
made-only d k x h =
    let at = singleton_from-only d 1 (k - 1) x.marks (mark→entry (made d x) k h) in
    ground (arith, h, at)

made-LessCell : (d : ℕ) (x : Cell) → LessCell x (made d x)
unfolding singleton
made-LessCell d x k = entries-mark x (made d x) k (singleton_from-less d 1 (k - 1) x.marks)

-- What the reading of a puzzle does before.
pub singleton-Step : (b : Board) (p : Place) (d : ℕ) → Step b (put b p (singleton d (b p)).0)
unfolding singleton
singleton-Step b p d =
    let x = (singleton d (b p)).0 in
    put-Step b p x (λ k. entries-mark (b p) x k (singleton_from-less d 1 (k - 1) (b p).marks)) refl

-- It leaves no other digit.
pub singleton-only :
    (b : Board) (p : Place) (d k : ℕ) → mark (put b p (singleton d (b p)).0 p) k ≡ true → k ≡ d
unfolding singleton mark
singleton-only b p d k h =
    let x : Cell = (singleton d (b p)).0 in
    let here : mark x k ≡ true = sym (ap (λ c. mark c k) (put_same b p x)) ∙ h in
    let at = singleton_from-only d 1 (k - 1) (b p).marks (mark→entry x k here) in
    ground (arith, here, at)

-- A cell that is determined, once the loops over its houses are through.
made-Cleared :
    (b b1 b2 b3 b4 : Board) (p : Place) (d : ℕ)
    → b1 p ≡ made d (b p)
    → Through d p (square p) b1 b2
    → Through d p (row p) b2 b3
    → Through d p (column p) b3 b4
    → Cleared b4 p
made-Cleared b b1 b2 b3 b4 p d e (s2, gone2) (s3, gone3) (s4, gone4) q k peer here =
    let s34 = Less-trans b2 b3 b4 s3.0 s4.0 in
    let before : mark (b1 p) k ≡ true = Less-trans b1 b2 b4 s2.0 s34 p k here in
    let digit : k ≡ d = made-only d k (b p) (sym (ap (λ x. mark x k) e) ∙ before) in
    let other : same p q ≡ false = ground (arith, peer) in
    rw digit (elim (Bool-cases (has q (square p))) [
      | inl i ↦ Less-false b2 b4 q d s34 (gone2 q i other)
      | inr i ↦ elim (Bool-cases (has q (row p))) [
        | inl j ↦ Less-false b3 b4 q d s4.0 (gone3 q j other)
        | inr j ↦ gone4 q (ground (arith, peer, i, j)) other
      ]
    ])

determined-Step :
    (b b2 b3 b4 : Board) (p : Place) (d : ℕ)
    → let b1 = put b p (made d (b p)) in
      Through d p (square p) b1 b2
      → Through d p (row p) b2 b3
      → Through d p (column p) b3 b4
      → Step b b4
unfolding put
determined-Step b b2 b3 b4 p d t2 t3 t4 =
    let b1 = put b p (made d (b p)) in
    let s = Step-trans b1 b2 b4 t2.0 (Step-trans b2 b3 b4 t3.0 t4.0) in
    (
      Less-trans b b1 b4 (put-Less b p (made d (b p)) (made-LessCell d (b p))) s.0,
      λ x h. elim (s.1 x h) [
        | inr done ↦ inr done
        | inl old ↦ elim (Bool-cases (same p x)) [
          | inl here ↦
              rw (← same→≡ p x here)
                (inr (made-Cleared b b1 b2 b3 b4 p d (put_same b p (made d (b p))) t2 t3 t4))
          | inr other ↦
              inl (sym (ap (λ c. (if c then made d (b p) else b x).determined) other) ∙ old)
        ]
      ],
    )

-- Whatever the board, the place, the digit and the fuel.
pub determine-Step :
    (fuel : ℕ) (p : Place) (d : ℕ) (b : Board) → OnOk (Step b) (determine fuel p d b)
unfolding determine
determine-Step zero p d b = tt
determine-Step (suc fuel) p d b = elim (Bool-cases (not (mark (b p) d) || (b p).determined)) [
  | inl stop ↦ rw (determine, stop) (Step-refl b)
  | inr go ↦
      let b1 = put b p (made d (b p)) in
      let e1 = (singleton d (b p)).1 in
      let steps = propagate_by-Step (determine fuel) (determine-Step fuel) in
      let run = house (propagate_by (determine fuel)) p d in
      let through = λ (qs : List Place) (c : Board) (e : Bool).
        house-Through (propagate_by (determine fuel)) p d qs c e steps in
      rw (determine, go)
        (OnOk-then_with (Through d p (square p) b1) (Step b) (run (square p) b1 e1)
          (λ b2 e2. then_with (run (row p) b2 e2) (λ b3 e3. run (column p) b3 e3))
          (through (square p) b1 e1)
          (λ b2 e2 t2.
            OnOk-then_with (Through d p (row p) b2) (Step b) (run (row p) b2 e2)
              (λ b3 e3. run (column p) b3 e3) (through (row p) b2 e2)
              (λ b3 e3 t3.
                OnOk-weaken (Through d p (column p) b3) (Step b) (run (column p) b3 e3)
                  (λ b4. determined-Step b b2 b3 b4 p d t2 t3) (through (column p) b3 e3))))
]

pub propagate_elimination-Stepping :
    (fuel : ℕ) (p : Place) → Stepping (propagate_elimination fuel p)
unfolding propagate_elimination
propagate_elimination-Stepping fuel p b =
    propagate_by-Step (determine fuel) (determine-Step fuel) p b
