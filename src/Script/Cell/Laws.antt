-- ===== src/Script/Cell/Laws.antt =====
-- What the methods of a cell of src/sudoku.lua compute.
use gtksudoku.Prelude.{
  ℕ, zero, suc, ◌+◌, ◌^◌, ◌≤◌, ◌<◌, ◌≡◌, refl, ap, Bool, true, false, not, ◌&&◌,
}
use gtksudoku.Prelude.{
  none, some, List, [], ◌∷◌, ◌==◌, if◌then◌else◌, length, get_elem?, ◌⊎◌, inl, inr, arith,
}
use gtksudoku.Prelude.{
  ◌||◌, ◌/◌, ◌%◌, get_or, every_below, every_below_lem, Bool-cases, pos, ◌==ℤ◌, ◌∙◌, leb, ltb, ◌≢◌,
}
use gtksudoku.Constants.{digits, all}
use gtksudoku.Cell.{and_all}
use gtksudoku.Cell.Laws.{and_all_small}
use gtksudoku.Cell.Draw.{glyph}
use gtksudoku.Cell.Draw.Glyphs.{read_glyph, read_glyph-glyph}
use gtksudoku.Script.Cell.{
  Cell, singleton, singleton_from, unknowns, unknowns_from, first, first_from,
}
use gtksudoku.Script.Cell.{only_pair_present, only_pair_from, val, val_from, print_item}

val_from-lt : (ms : List Bool) → val_from ms < 2 ^ length ms
unfolding val_from
val_from-lt [] = omega arith
val_from-lt (m ∷ ms) = ground (arith, val_from-lt ms)

-- The number of a cell determines which digits are left in it.
pub val_from-injective :
    (ms ns : List Bool) → length ms ≡ length ns → val_from ms ≡ val_from ns → ms ≡ ns
unfolding val_from
val_from-injective [] [] h e = refl
val_from-injective [] (n ∷ ns) h e = absurd (omega (arith, h))
val_from-injective (m ∷ ms) [] h e = absurd (omega (arith, h))
val_from-injective (m ∷ ms) (n ∷ ns) h e = ground (arith, val_from-injective ms ns)

-- Behind the digit nothing is left.
singleton_from-behind :
    (d i : ℕ) (ms : List Bool)
    → d < i
    → (unknowns_from (singleton_from d i ms).0 ≡ 0)
      × ((singleton_from d i ms).1 ≡ not (unknowns_from ms == 0))
unfolding singleton_from unknowns_from
singleton_from-behind d i [] h = (refl, refl)
singleton_from-behind d i (m ∷ ms) h =
    let rest = singleton_from-behind d (i + 1) ms (omega arith) in (ground arith, ground arith)

val_from-none : (ms : List Bool) → unknowns_from ms ≡ 0 → val_from ms ≡ 0
unfolding val_from unknowns_from
val_from-none [] h = refl
val_from-none (m ∷ ms) h = ground (arith, val_from-none ms)

unknowns_from-some : (ms : List Bool) (k : ℕ) → get_elem? ms k ≡ some true → 1 ≤ unknowns_from ms
unfolding unknowns_from
unknowns_from-some [] k h = absurd (ground arith)
unknowns_from-some (m ∷ ms) zero h = ground arith
unknowns_from-some (m ∷ ms) (suc k) h = ground (arith, unknowns_from-some ms k h)

-- A cell without all digits but `d`, from entry `i` on, where entry `d` is `k` places further.
record Single (d k : ℕ) (i : ℕ) (before : List Bool) (after : List Bool × Bool) : Type 0 where
  one : unknowns_from after.0 ≡ 1
  which : first_from i after.0 ≡ some d
  number : val_from after.0 ≡ 2 ^ k
  changed : after.1 ≡ not (unknowns_from before == 1)

singleton_from-Single :
    (d k i : ℕ) (ms : List Bool)
    → i + k ≡ d
    → get_elem? ms k ≡ some true
    → Single d k i ms (singleton_from d i ms)
unfolding singleton_from unknowns_from first_from val_from
singleton_from-Single d k i [] here h = absurd (ground arith)
singleton_from-Single d zero i (m ∷ ms) here h =
    let rest = singleton_from-behind d (i + 1) ms (omega (arith, here)) in
    record {
      one = ground (arith, here, rest);
      which = ground (arith, here, rest);
      number = ground (arith, here, rest, val_from-none (singleton_from d (i + 1) ms).0);
      changed = ground (arith, here, rest);
    }
singleton_from-Single d (suc k) i (m ∷ ms) here h =
    let some_left = unknowns_from-some ms k h in
    let rest = singleton_from-Single d k (i + 1) ms (omega (arith, here)) h in
    record {
      one = ground (arith, here, rest.one);
      which = ground (arith, here, rest.which);
      number = ground (arith, here, rest.number);
      changed = ground (arith, here, rest.changed, some_left);
    }

-- Determining a digit that is left in a cell leaves that digit alone: it is the only unknown and the
-- first, and the number of the cell is its bit; the method answers whether others were left before.
pub singleton_lem :
    (cell : Cell) (k : ℕ)
    → get_elem? cell.marks k ≡ some true
    → let (cell', changed) = singleton (k + 1) cell in
      (unknowns cell' ≡ 1)
      × (first cell' ≡ some (k + 1))
      × (val cell' ≡ 2 ^ k)
      × (changed ≡ not (unknowns cell == 1))
      × (cell'.determined ≡ cell.determined)
unfolding singleton unknowns first val
singleton_lem cell k h =
    let r = singleton_from-Single (k + 1) k 1 cell.marks (omega arith) h in
    (r.one, r.which, r.number, r.changed, refl)

first_from-cases :
    (i : ℕ) (ms : List Bool)
    → ((first_from i ms ≡ none) × (unknowns_from ms ≡ 0))
      ⊎ ((k : ℕ) × (first_from i ms ≡ some (i + k))
          × (get_elem? ms k ≡ some true)
          × ((j : ℕ) → j < k → get_elem? ms j ≡ some false))
unfolding first_from unknowns_from
first_from-cases i [] = inl (refl, refl)
first_from-cases i (true ∷ ms) = inr (0, ap some (omega arith), refl, λ j lt. absurd (omega arith))
first_from-cases i (false ∷ ms) = elim (first_from-cases (i + 1) ms) [
  | inl (e, u) ↦ inl (e, ground arith)
  | inr (k, e, here, before) ↦ inr (
    suc k,
    e ∙ ap some (omega arith),
    here,
    elim [ zero ↦ λ lt. refl | suc j ↦ λ lt. before j (omega arith) ],
  )
]

-- `first` raises its error just where no digit is left, and else answers the lowest digit left.
pub first_lem :
    (cell : Cell)
    → ((first cell ≡ none) × (unknowns cell ≡ 0))
      ⊎ ((k : ℕ) × (first cell ≡ some (k + 1))
          × (get_elem? cell.marks k ≡ some true)
          × ((j : ℕ) → j < k → get_elem? cell.marks j ≡ some false))
unfolding first unknowns
first_lem cell = elim (first_from-cases 1 cell.marks) [
  | inl h ↦ inl h
  | inr (k, e, here, before) ↦ inr (k, e ∙ ap some (omega arith), here, before)
]

val-le : (cell : Cell) → length cell.marks ≡ digits → val cell ≤ all
unfolding val
val-le cell size = ground (arith, val_from-lt cell.marks, size)

-- Whether a digit, counted from 0, is in a set, which is a number: its bit.
unfoldable pub holds : ℕ → ℕ → Bool
holds zero n = n % 2 == 1
holds (suc i) n = holds i (n / 2)

-- Whether any entry of a cell is left.
unfoldable pub any_left : List Bool → Bool
any_left [] = false
any_left (m ∷ ms) = m || any_left ms

holds-val_from : (i : ℕ) (ms : List Bool) → holds i (val_from ms) ≡ get_or ms i false
unfolding holds val_from
holds-val_from zero [] = refl
holds-val_from (suc i) [] = holds-val_from i []
holds-val_from zero (m ∷ ms) = ground arith
holds-val_from (suc i) (m ∷ ms) =
    let half : val_from (m ∷ ms) / 2 ≡ val_from ms = ground arith in
    ap (holds i) half ∙ holds-val_from i ms

any_left-val_from : (ms : List Bool) → any_left ms ≡ not (val_from ms == 0)
unfolding any_left val_from
any_left-val_from [] = refl
any_left-val_from (m ∷ ms) = ground (arith, any_left-val_from ms)

all_hold : every_below (λ i. holds i all) 9 ≡ true
unfolding every_below holds
all_hold = refl

holds-none : (i : ℕ) (ms : List Bool) → any_left ms ≡ false → holds i (val_from ms) ≡ false
unfolding val_from
holds-none i ms h =
    let zero_val : val_from ms ≡ 0 = ground (arith, h, any_left-val_from ms) in
    ap (holds i) zero_val ∙ holds-val_from i []

-- The set that a cell of nine entries is drawn as, by the value that the script prints.
drawn_set :
    (details : Bool) (cell : Cell)
    → length cell.marks ≡ digits
    → let (value, mode) = print_item details cell in
      read_glyph (glyph (and_all value) ((if mode then pos 1 else pos 0) ==ℤ pos 0))
      ≡ (if not (val cell == 0) && not details && not cell.determined then all else val cell)
unfolding print_item and_all
drawn_set details cell size =
    let numerals = (if not cell.determined then pos 1 else pos 0) ==ℤ pos 0 in
    ground (
      arith,
      val-le cell size,
      and_all_small (val cell),
      read_glyph-glyph all numerals,
      read_glyph-glyph (val cell) numerals,
    )

holds-drawn :
    (i : ℕ) (ms : List Bool) (open_ : Bool)
    → i < 9
    → holds i (if not (val_from ms == 0) && not open_ then all else val_from ms)
      ≡ (if open_ then get_or ms i false else any_left ms)
holds-drawn i ms true lt =
    let e : (not (val_from ms == 0) && false) ≡ false = ground arith in rw e (holds-val_from i ms)
holds-drawn i ms false lt = elim (Bool-cases (any_left ms)) [
  | inl some_left ↦
      let e : (not (val_from ms == 0) && true) ≡ true =
        ground (arith, some_left, any_left-val_from ms) in
      rw (e, some_left) (every_below_lem (λ i. holds i all) 9 all_hold i lt)
  | inr nothing ↦
      let e : (not (val_from ms == 0) && true) ≡ false =
        ground (arith, nothing, any_left-val_from ms) in
      rw (e, nothing) (holds-none i ms nothing)
]

-- What the window draws for a cell of nine entries that the script prints, digit by digit: if the
-- cell is determined or details are asked for, the digits whose entries are left; else all of
-- them, a blank, if any entry is left, and none if no entry is.
pub print_item-read_glyph :
    (details : Bool) (cell : Cell) (i : ℕ)
    → length cell.marks ≡ digits
    → i < digits
    → let (value, mode) = print_item details cell in
      let drawn = glyph (and_all value) ((if mode then pos 1 else pos 0) ==ℤ pos 0) in
      holds i (read_glyph drawn)
      ≡ (if details || cell.determined then get_or cell.marks i false else any_left cell.marks)
unfolding val
print_item-read_glyph details cell i size lt =
    let same_test : (not (val cell == 0) && not details && not cell.determined)
        ≡ (not (val_from cell.marks == 0) && not (details || cell.determined)) =
      ground arith in
    ap (holds i) (drawn_set details cell size)
    ∙ (ap (λ t. holds i (if t then all else val_from cell.marks)) same_test
        ∙ holds-drawn i cell.marks (details || cell.determined) lt)

only_pair_from-unknowns :
    (d1 d2 i : ℕ) (ms : List Bool)
    → (d1 == d2) ≡ false
    → only_pair_from d1 d2 i ms ≡ true
    → unknowns_from ms
      ≡ (if leb i d1 && ltb d1 (i + length ms) then 1 else 0)
        + (if leb i d2 && ltb d2 (i + length ms) then 1 else 0)
unfolding only_pair_from unknowns_from
only_pair_from-unknowns d1 d2 i [] ne h = ground arith
only_pair_from-unknowns d1 d2 i (m ∷ ms) ne h =
    let rest = only_pair_from-unknowns d1 d2 (i + 1) ms ne (ground (arith, h)) in
    ground (arith, h, ne, rest)

-- In a cell of nine entries, where `only_pair_present` answers yes for two digits from 1 to 9,
-- they are different and exactly two digits are left.
pub only_pair_present_lem :
    (cell : Cell) (d1 d2 : ℕ)
    → length cell.marks ≡ digits
    → (1 ≤ d1) × (d1 ≤ digits)
    → (1 ≤ d2) × (d2 ≤ digits)
    → only_pair_present d1 d2 cell ≡ true
    → (d1 ≢ d2) × (unknowns cell ≡ 2)
unfolding only_pair_present unknowns
only_pair_present_lem cell d1 d2 size (a, b) (c, d) h =
    let ne : (d1 == d2) ≡ false = ground (arith, h) in
    let rest = only_pair_from-unknowns d1 d2 1 cell.marks ne (rw ne at h) in
    (ground (arith, ne), ground (arith, rest, size, a, b, c, d))
