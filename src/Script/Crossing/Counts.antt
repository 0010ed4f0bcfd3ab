-- ===== src/Script/Crossing/Counts.antt =====
-- Loops that leave out an index, and how often a test holds in them.
use gtksudoku.Prelude.{ℕ, zero, suc, ◌+◌, ◌≡◌, Bool, false, arith, if◌then◌else◌}
use gtksudoku.Prelude.{List, [], ◌∷◌, map, ◌==◌, count_if, Bool-cases, inl, inr}
use gtksudoku.Script.Board.{Place, pairs}
use gtksudoku.Script.Solution.{InTable, InSides, All}
use gtksudoku.Script.Crossing.{but}

-- Where the loops leave out an index, and the three rounds for it.
abbrev pub one : Bool → ℕ
one e = if e then 1 else 0

abbrev pub crossing : (Place → Bool) → (ℕ × ℕ → Place) → ℕ → ℕ
crossing f g n = one (f (g (n, 1))) + one (f (g (n, 2))) + one (f (g (n, 3)))

pub count_if-but :
    (f : Place → Bool) (g : ℕ × ℕ → Place) (n : ℕ)
    → InSides n
    → count_if f (map g pairs) ≡ count_if f (map g (but n pairs)) + crossing f g n
unfolding but
count_if-but f g zero (a, b) = absurd (omega (arith, a))
count_if-but f g (suc zero) h = omega arith
count_if-but f g (suc (suc zero)) h = omega arith
count_if-but f g (suc (suc (suc zero))) h = omega arith
count_if-but f g (suc (suc (suc (suc n)))) (a, b) = absurd (omega (arith, b))

-- The order of the two loops does not matter.
pub count_if-transposed :
    (f : Place → Bool) (g : ℕ × ℕ → Place)
    → count_if f (map (λ (k : ℕ × ℕ). g (k.1, k.0)) pairs) ≡ count_if f (map g pairs)
count_if-transposed f g = omega arith

pub but-InTable :
    (g : ℕ × ℕ → Place) (n : ℕ) (ks : List (ℕ × ℕ))
    → All InTable (map g ks)
    → All InTable (map g (but n ks))
unfolding but
but-InTable g n [] h = tt
but-InTable g n (k ∷ ks) (here, h) = elim (Bool-cases (k.0 == n)) [
  | inl e ↦ rw e (but-InTable g n ks h)
  | inr e ↦ rw e (here, but-InTable g n ks h)
]

pub count_if-absent :
    (f : Place → Bool) (qs : List Place) → count_if f qs ≡ 0 → All (λ q. f q ≡ false) qs
count_if-absent f [] h = tt
count_if-absent f (q ∷ qs) h = (ground (arith, h), count_if-absent f qs (ground (arith, h)))
