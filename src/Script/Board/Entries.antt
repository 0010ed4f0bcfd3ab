-- ===== src/Script/Board/Entries.antt =====
-- The entries of a cell: one that is left alone is the first, and `singleton` leaves its own.
use gtksudoku.Prelude.{
  ℕ, zero, suc, ◌+◌, ◌≤◌, ◌≡◌, Bool, true, false, arith, some, List, [], ◌∷◌, get_or,
}
use gtksudoku.Prelude.{◌-◌}
use gtksudoku.Script.Board.{mark}
use gtksudoku.Script.Cell.{Cell, singleton_from, unknowns_from, first_from}

unknowns_from-left : (ms : List Bool) (k : ℕ) → get_or ms k false ≡ true → 1 ≤ unknowns_from ms
unfolding unknowns_from
unknowns_from-left [] k h = absurd (ground (arith, h))
unknowns_from-left (m ∷ ms) zero h = ground (arith, h)
unknowns_from-left (m ∷ ms) (suc k) h = ground (arith, unknowns_from-left ms k h)

-- The only entry that is left is the first.
pub first_from-only :
    (ms : List Bool) (i k : ℕ)
    → get_or ms k false ≡ true
    → unknowns_from ms ≤ 1
    → first_from i ms ≡ some (i + k)
unfolding first_from unknowns_from
first_from-only [] i k h one = absurd (ground (arith, h))
first_from-only (true ∷ ms) i zero h one = ground arith
first_from-only (false ∷ ms) i zero h one = absurd (ground (arith, h))
first_from-only (true ∷ ms) i (suc k) h one = absurd (omega (arith, one, unknowns_from-left ms k h))
first_from-only (false ∷ ms) i (suc k) h one =
    let rest = first_from-only ms (i + 1) k h (omega (arith, one)) in ground (arith, rest)

pub singleton_from-kept :
    (d i k : ℕ) (ms : List Bool)
    → i + k ≡ d
    → get_or ms k false ≡ true
    → get_or (singleton_from d i ms).0 k false ≡ true
unfolding singleton_from
singleton_from-kept d i k [] e h = h
singleton_from-kept d i zero (m ∷ ms) e h = ground (arith, e, h)
singleton_from-kept d i (suc k) (m ∷ ms) e h =
    let rest = singleton_from-kept d (i + 1) k ms (omega (arith, e)) h in ground (arith, rest)

pub mark→entry : (x : Cell) (d : ℕ) → mark x d ≡ true → get_or x.marks (d - 1) false ≡ true
unfolding mark
mark→entry x d h = ground (arith, h)

pub entry→mark : (x : Cell) (d : ℕ) → 1 ≤ d → get_or x.marks (d - 1) false ≡ true → mark x d ≡ true
unfolding mark
entry→mark x d low h = ground (arith, low, h)

-- A cell with fewer entries has fewer digits.
pub entries-mark :
    (x y : Cell) (d : ℕ)
    → (get_or y.marks (d - 1) false ≡ true → get_or x.marks (d - 1) false ≡ true)
    → mark y d ≡ true
    → mark x d ≡ true
unfolding mark
entries-mark x y d h e = let found = h (mark→entry y d e) in ground (arith, e, found)
