-- ===== src/Script/Cell.antt =====
-- The cells of src/sudoku.lua. The entries 1 to 9 of the table are a list, so entry `i` stands at
-- place `i - 1`; a method that writes to its cell returns the new one, and an error that a method
-- raises is `none`.
pub mod Laws
use gtksudoku.Prelude.{
  ℕ, zero, suc, ◌+◌, ◌*◌, Bool, true, false, not, ◌&&◌, ◌||◌, Option, none, some,
}
use gtksudoku.Prelude.{List, [], ◌∷◌, ◌==◌, if◌then◌else◌, ℤ, pos, negsuc}
use gtksudoku.Constants.{digits}

-- `determined` is nil where it is false here.
pub record Cell : Type 0 where
  pub marks : List Bool
  pub determined : Bool

abbrev all_true : ℕ → List Bool
all_true zero = []
all_true (suc n) = true ∷ all_true n

unfoldable pub mk_cell : Cell
mk_cell = record { marks = all_true digits; determined = false }

-- `a ~= b` on Booleans.
abbrev pub differ : Bool → Bool → Bool
differ true b = not b
differ false b = b

-- `Cell:singleton`, from entry `i` on: the entries, and whether one was changed.
unfoldable pub singleton_from : ℕ → ℕ → List Bool → List Bool × Bool
singleton_from d i [] = ([], false)
singleton_from d i (m ∷ ms) =
    let rest = singleton_from d (i + 1) ms in
    if not (i == d) && m then (false ∷ rest.0, true) else (m ∷ rest.0, rest.1)

unfoldable pub singleton : ℕ → Cell → Cell × Bool
singleton d cell = let r = singleton_from d 1 cell.marks in (record cell { marks = r.0 }, r.1)

unfoldable pub unknowns_from : List Bool → ℕ
unknowns_from [] = 0
unknowns_from (m ∷ ms) = (if m then 1 else 0) + unknowns_from ms

unfoldable pub unknowns : Cell → ℕ
unfolding unknowns_from
unknowns cell = unknowns_from cell.marks

-- `Cell:first`, from entry `i` on; `none` is the error "Board inconsistent".
unfoldable pub first_from : ℕ → List Bool → Option ℕ
first_from i [] = none
first_from i (m ∷ ms) = let rest = first_from (i + 1) ms in if m then some i else rest

unfoldable pub first : Cell → Option ℕ
unfolding first_from
first cell = first_from 1 cell.marks

unfoldable pub only_pair_from : ℕ → ℕ → ℕ → List Bool → Bool
only_pair_from d1 d2 i [] = true
only_pair_from d1 d2 i (m ∷ ms) =
    let rest = only_pair_from d1 d2 (i + 1) ms in
    if differ (i == d1 || i == d2) m then false else rest

unfoldable pub only_pair_present : ℕ → ℕ → Cell → Bool
unfolding only_pair_from
only_pair_present d1 d2 cell = if d1 == d2 then false else only_pair_from d1 d2 1 cell.marks

-- `Cell:val`: the loop runs from the last entry down to the first.
unfoldable pub val_from : List Bool → ℕ
val_from [] = 0
val_from (m ∷ ms) = let n = 2 * val_from ms in if m then n + 1 else n

unfoldable pub val : Cell → ℕ
unfolding val_from
val cell = val_from cell.marks

-- `Board:print_item`: the value and the mode that it hands to `set_val`.
unfoldable pub print_item : Bool → Cell → ℤ × Bool
print_item details cell =
    let n = val cell in
    (
      if not (n == 0) && not details && not cell.determined then negsuc 0 else pos n,
      not cell.determined,
    )
