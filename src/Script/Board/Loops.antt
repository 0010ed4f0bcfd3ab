-- ===== src/Script/Board/Loops.antt =====
-- The loops of `determine` and a solution of the puzzle: the digits that they take away are not
-- those of the solution, and no cell is determined by them.
use gtksudoku.Prelude.{
  ℕ, zero, suc, ◌+◌, ◌-◌, ◌≤◌, ◌≡◌, refl, ◌≢◌, ap, ◌∙◌, Bool, true, false, not, ◌&&◌, ◌||◌, arith,
}
use gtksudoku.Prelude.{List, [], ◌∷◌, ◌==◌, if◌then◌else◌, Bool-cases, inl, inr, get_or, set}
use gtksudoku.Script.Cell.{Cell}
use gtksudoku.Script.Board.{Place, Board, same, put, mark, clear, influence}
use gtksudoku.Script.Solution.{InTable, Keeps, All, same→≡}

get_or-set_other :
    (ms : List Bool) (i j : ℕ) (v : Bool) → i ≢ j → get_or (set ms i v) j false ≡ get_or ms j false
get_or-set_other [] i j v h = refl
get_or-set_other (m ∷ ms) zero zero v h = absurd (h refl)
get_or-set_other (m ∷ ms) zero (suc j) v h = refl
get_or-set_other (m ∷ ms) (suc i) zero v h = refl
get_or-set_other (m ∷ ms) (suc i) (suc j) v h = get_or-set_other ms i j v (λ e. h (ap suc e))

-- Taking a digit away leaves the others.
pub mark-clear :
    (cell : Cell) (d k : ℕ) → 1 ≤ d → 1 ≤ k → d ≢ k → mark (clear d cell) k ≡ mark cell k
unfolding mark clear
mark-clear cell d k p q ne =
    let e = get_or-set_other cell.marks (d - 1) (k - 1) false (λ e. ne (omega (arith, e))) in
    ap (λ x. not (k == 0) && x) e

pub clear-determined : (d : ℕ) (cell : Cell) → (clear d cell).determined ≡ cell.determined
unfolding clear
clear-determined d cell = refl

-- A write of a cell that keeps the digit of its place.
pub put-Keeps :
    (sol : Place → ℕ) (b : Board) (p : Place) (x : Cell)
    → mark x (sol p) ≡ true
    → Keeps sol b
    → Keeps sol (put b p x)
unfolding put
put-Keeps sol b p x h keeps q inside = elim (Bool-cases (same p q)) [
  | inl e ↦ rw e (rw (← same→≡ p q e) h)
  | inr e ↦ rw e (keeps q inside)
]

-- Nor does a write that leaves the flag of its cell determine another.
abbrev pub SameFlags : Board → Board → Type 0
SameFlags b b' = (q : Place) → (b' q).determined ≡ (b q).determined

pub put-SameFlags :
    (b : Board) (p : Place) (x : Cell) → x.determined ≡ (b p).determined → SameFlags b (put b p x)
unfolding put
put-SameFlags b p x h q = elim (Bool-cases (same p q)) [
  | inl e ↦ rw e (rw (← same→≡ p q e) h)
  | inr e ↦ rw e refl
]

-- The places of a house but one do not hold its digit.
abbrev pub Others : (Place → ℕ) → ℕ → Place → List Place → Type 0
Others sol d p qs = All (λ q. (same p q || not (sol q == d)) ≡ true) qs

-- One round of the loop.
abbrev pub struck : ℕ → Place → Place → Board → Board
struck d p q b = if not (same p q) && mark (b q) d then put b q (clear d (b q)) else b

struck-Keeps :
    (sol : Place → ℕ) (d : ℕ) (p q : Place) (b : Board)
    → 1 ≤ d
    → 1 ≤ sol q
    → InTable q
    → (same p q || not (sol q == d)) ≡ true
    → Keeps sol b
    → Keeps sol (struck d p q b) × SameFlags b (struck d p q b)
struck-Keeps sol d p q b one digit here other keeps =
    elim (Bool-cases (not (same p q) && mark (b q) d)) [
      | inr miss ↦ rw miss (keeps, λ x. refl)
      | inl hit ↦
          let ne : d ≢ sol q = λ same_digit. ground (arith, other, hit, same_digit) in
          let kept : mark (clear d (b q)) (sol q) ≡ true =
            rw (mark-clear (b q) d (sol q) one digit ne) (keeps q here) in
          let flag : (clear d (b q)).determined ≡ (b q).determined = clear-determined d (b q) in
          rw hit
            (put-Keeps sol b q (clear d (b q)) kept keeps, put-SameFlags b q (clear d (b q)) flag)
    ]

pub influence-Keeps :
    (sol : Place → ℕ) (d : ℕ) (p : Place) (qs : List Place) (b : Board) (e : Bool) (m : ℕ)
    → 1 ≤ d
    → ((q : Place) → InTable q → 1 ≤ sol q)
    → All InTable qs
    → Others sol d p qs
    → Keeps sol b
    → Keeps sol (influence d p qs b e m).0 × SameFlags b (influence d p qs b e m).0
unfolding influence
influence-Keeps sol d p [] b e m one digit inside others keeps = (keeps, λ q. refl)
influence-Keeps sol d p (q ∷ qs) b e m one digit (here, inside) (other, others) keeps =
    let (keeps1, flags1) = struck-Keeps sol d p q b one (digit q here) here other keeps in
    let (keeps2, flags2) =
      influence-Keeps sol d p qs (struck d p q b) (e || (not (same p q) && mark (b q) d))
        (if (struck d p q b q).determined then m + 1 else m) one digit inside others keeps1 in
    (keeps2, λ x. flags2 x ∙ flags1 x)
