-- ===== src/Script/Board/Clean.antt =====
-- A digit that is determined is taken away from the other places of its houses: what every method
-- that ends without an error does to the board.
pub mod Determined
use gtksudoku.Prelude.{
  ℕ, zero, suc, ◌+◌, ◌-◌, ◌≡◌, refl, sym, ◌∙◌, ap, Bool, true, false, not, ◌&&◌, ◌||◌, arith,
}
use gtksudoku.Prelude.{
  List, [], ◌∷◌, ◌==◌, ltb, if◌then◌else◌, Bool-cases, Option-cases, inl, inr, ◌⊎◌, get_or, set,
}
use gtksudoku.Constants.{digits}
use gtksudoku.Script.Cell.{Cell, singleton, singleton_from, unknowns, first}
use gtksudoku.Script.Board.{
  Place, Board, same, put, mark, clear, square, row, column, Result, ok, raised, out_of_fuel,
}
use gtksudoku.Script.Board.{
  then_with, influence, finish, house, propagate_by, determine, propagate_elimination,
}
use gtksudoku.Script.Board.Entries.{entries-mark, mark→entry}
use gtksudoku.Script.Board.Loops.{struck, SameFlags, put-SameFlags, clear-determined}
use gtksudoku.Script.Board.Less.{
  Less, Less-trans, LessCell, put-Less, clear-LessCell, singleton_from-less,
}
use gtksudoku.Script.Solution.{has, same→≡, same_refl}

-- A board that a method leaves, if it ends without an error.
abbrev pub OnOk : (Board → Type 0) → Result → Type 0
OnOk P (ok b e) = P b
OnOk P (raised w b) = Unit
OnOk P out_of_fuel = Unit

pub OnOk-weaken :
    (P Q : Board → Type 0) (r : Result) → ((b : Board) → P b → Q b) → OnOk P r → OnOk Q r
OnOk-weaken P Q (ok b e) h k = h b k
OnOk-weaken P Q (raised w b) h k = tt
OnOk-weaken P Q out_of_fuel h k = tt

pub OnOk-then_with :
    (P Q : Board → Type 0) (r : Result) (k : Board → Bool → Result)
    → OnOk P r
    → ((b : Board) (e : Bool) → P b → OnOk Q (k b e))
    → OnOk Q (then_with r k)
OnOk-then_with P Q (ok b e) k h next = next b e h
OnOk-then_with P Q (raised w b) k h next = tt
OnOk-then_with P Q out_of_fuel k h next = tt

-- Another place of one of the houses of a place.
abbrev pub peers : Place → Place → Bool
peers p q = not (same p q) && (has q (square p) || has q (row p) || has q (column p))

-- The digits of a cell are gone from its peers.
abbrev pub Cleared : Board → Place → Type 0
Cleared b p = (q : Place) (d : ℕ) → peers p q ≡ true → mark (b p) d ≡ true → mark (b q) d ≡ false

-- Of each cell that is determined the digits are gone from the peers.
abbrev pub Clean : Board → Type 0
Clean b = (p : Place) → (b p).determined ≡ true → Cleared b p

-- From one board to another no digit comes back, and this is so of each cell that is determined since.
abbrev pub Step : Board → Board → Type 0
Step a b =
    Less a b × ((p : Place) → (b p).determined ≡ true → ((a p).determined ≡ true) ⊎ Cleared b p)

pub Less-false :
    (a b : Board) (q : Place) (d : ℕ) → Less a b → mark (a q) d ≡ false → mark (b q) d ≡ false
Less-false a b q d less h = elim (Bool-cases (mark (b q) d)) [
  | inl here ↦ absurd (cc (h, less q d here))
  | inr gone ↦ gone
]

Cleared-Less : (a b : Board) (p : Place) → Less a b → Cleared a p → Cleared b p
Cleared-Less a b p less h q d peer here = Less-false a b q d less (h q d peer (less p d here))

pub Step-refl : (b : Board) → Step b b
Step-refl b = (λ q d h. h, λ p h. inl h)

pub Step-trans : (a b c : Board) → Step a b → Step b c → Step a c
Step-trans a b c (less, new) (less', new') = (
  Less-trans a b c less less',
  λ p h. elim (new' p h) [
    | inr done ↦ inr done
    | inl before ↦ elim (new p before) [
      | inl old ↦ inl old
      | inr done ↦ inr (Cleared-Less b c p less' done)
    ]
  ],
)

pub Step-Clean : (a b : Board) → Step a b → Clean a → Clean b
Step-Clean a b (less, new) clean p h = elim (new p h) [
  | inl old ↦ Cleared-Less a b p less (clean p old)
  | inr done ↦ done
]

pub Flags-Step : (a b : Board) → Less a b → SameFlags a b → Step a b
Flags-Step a b less flags = (less, λ p h. inl (sym (flags p) ∙ h))

-- A write that takes digits away.
pub put-Step :
    (b : Board) (p : Place) (x : Cell)
    → LessCell (b p) x
    → x.determined ≡ (b p).determined
    → Step b (put b p x)
put-Step b p x less flag = Flags-Step b (put b p x) (put-Less b p x less) (put-SameFlags b p x flag)

pub clear-Step : (b : Board) (p : Place) (d : ℕ) → Step b (put b p (clear d (b p)))
clear-Step b p d = put-Step b p (clear d (b p)) (clear-LessCell d (b p)) (clear-determined d (b p))

-- A method that goes on from a board.
pub Step-next : (a b : Board) (r : Result) → Step a b → OnOk (Step b) r → OnOk (Step a) r
Step-next a b r h k = OnOk-weaken (Step b) (Step a) r (λ c h'. Step-trans a b c h h') k

-- A method that keeps to this.
abbrev pub Stepping : (Board → Result) → Type 0
Stepping rule = (b : Board) → OnOk (Step b) (rule b)
