-- ===== src/Cell/Laws.antt =====
-- What the handlers of src/sudokucell.c keep, change and announce.
use gtksudoku.Prelude.{ℕ, ◌+◌, ◌≤◌, ◌<◌, ◌≡◌, refl, Bool, true, false, List, [], ◌∷◌, ◌++◌}
use gtksudoku.Prelude.{none, some, ◌⊎◌, inl, inr, ◌==◌, if◌then◌else◌, ℤ, pos, ==ℤ→≡, arith}
use gtksudoku.Prelude.{
  ◌&&◌, ltb, leb, every_below, every_below_lem, ap, Bool-cases, Option-cases, ==ℤ_refl,
}
use gtksudoku.Constants.{all}
use gtksudoku.BoardText.{isboardchar, boardchar2val}
use gtksudoku.Cell

-- The character of the key that a digit names.
abbrev pub digit_char : ℕ → ℕ
digit_char digit = if digit == 0 then b'.' else b'0' + digit

pub and_all-le : (v : ℤ) → Cell.and_all v ≤ all
unfolding Cell.and_all
and_all-le (pos n) = omega arith
and_all-le (ℤ.negsuc n) = omega arith

pub and_all_small : (n : ℕ) → n ≤ all → Cell.and_all (pos n) ≡ n
unfolding Cell.and_all
and_all_small n h = omega arith

-- What a well-formed cell holds: a set of digits.
abbrev pub IsValid : Cell.Cell → Type 0
IsValid cell = cell.val ≤ all

-- The signals among the requests.
unfoldable pub signals : List Cell.Request → List (ℕ × ℕ × ℕ × ℤ)
signals [] = []
signals (Cell.emit_changed r c v m ∷ rest) = (r, c, v, m) ∷ signals rest
signals (_ ∷ rest) = signals rest

-- After `set_val` a cell holds the masked value and the mode; its place, and whether it is
-- editable, stay.
pub set_val_lem :
    (window : Bool) (cell : Cell.Cell) (v m : ℤ)
    → (Cell.set_val window cell v m).0 ≡ record cell { val = Cell.and_all v; mode = m }
unfolding Cell.set_val
set_val_lem window cell v m = ground (arith, ==ℤ→≡ cell.mode m)

-- Setting a cell to what it shows already redraws nothing.
pub set_val-set_val :
    (window window' : Bool) (cell : Cell.Cell) (v m : ℤ)
    → Cell.set_val window' (Cell.set_val window cell v m).0 v m
      ≡ ((Cell.set_val window cell v m).0, [])
unfolding Cell.set_val
set_val-set_val window window' cell v m = rw set_val_lem (ground (arith, ==ℤ_refl m))

redraw_canvas-signals :
    (window : Bool) (rest : List Cell.Request)
    → signals (Cell.redraw_canvas window ++ rest) ≡ signals rest
unfolding Cell.redraw_canvas signals
redraw_canvas-signals true rest = refl
redraw_canvas-signals false rest = refl

set_val-signals :
    (window : Bool) (cell : Cell.Cell) (v m : ℤ) (rest : List Cell.Request)
    → signals ((Cell.set_val window cell v m).1 ++ rest) ≡ signals rest
unfolding Cell.set_val
set_val-signals window cell v m rest = ground (arith, redraw_canvas-signals window rest)

digit_table :
    every_below
      (λ d.
        leb (Cell.digit_set d) all
        && (Cell.digit_set d == boardchar2val (digit_char d))
        && isboardchar (digit_char d))
      10
    ≡ true
unfolding every_below Cell.digit_set boardchar2val isboardchar
digit_table = refl

-- The keys of the cell editor and the characters of a board agree on what they stand for.
pub digit_char_lem :
    (d : ℕ)
    → d < 10
    → (Cell.digit_set d ≡ boardchar2val (digit_char d)) × (isboardchar (digit_char d) ≡ true)
digit_char_lem d h = let row = every_below_lem _ 10 digit_table d h in (ground arith, ground arith)

digit_set-le : (d : ℕ) → Cell.digit_set d ≤ all
unfolding Cell.digit_set
digit_set-le d = elim (Bool-cases (ltb d 10)) [
  | inl e ↦ let row = every_below_lem _ 10 digit_table d (ground arith) in ground arith
  | inr e ↦ ground arith
]

-- A cell after the key of a digit: the digit's set, drawn as a numeral.
abbrev pub typed : Cell.Cell → ℕ → Cell.Cell
typed cell d = record cell { val = Cell.digit_set d; mode = pos 0 }

pub pressed_key_lem :
    (window : Bool) (cell : Cell.Cell) (d : ℕ)
    → ((Cell.pressed_key window cell d).0 ≡ typed cell d)
      × (signals (Cell.pressed_key window cell d).1 ≡ (
          if Cell.digit_set d == cell.val
          then []
          else (cell.row, cell.col, Cell.digit_set d, pos 0) ∷ []))
      × ((Cell.pressed_key window cell d).2 ≡ false)
unfolding Cell.pressed_key signals
pressed_key_lem window cell d = (
  rw (set_val_lem, and_all_small (Cell.digit_set d) (digit_set-le d)),
  rw (set_val-signals, set_val_lem, and_all_small (Cell.digit_set d) (digit_set-le d))
      (ground arith),
  refl,
)

pub key_digit-lt : (key : Cell.KeyVal) {d : ℕ} → Cell.key_digit key ≡ some d → d < 10
unfolding Cell.key_digit
key_digit-lt Cell.key_1 e = ground arith
key_digit-lt _ e = ground arith

on_key_press-pressed_key :
    (bindings : Cell.KeyVal → Bool) (window : Bool) (cell : Cell.Cell) (key : Cell.KeyVal) (d : ℕ)
    → cell.editable ≡ true
    → Cell.key_digit key ≡ some d
    → Cell.on_key_press bindings window cell key ≡ Cell.pressed_key window cell d
unfolding Cell.on_key_press
on_key_press-pressed_key bindings window cell key d editable is_digit = ground arith

-- A key of a digit, the period or the space bar, pressed in an editable cell: the cell takes the
-- digit's set and is drawn as a numeral, the board is told if and only if the set is another one,
-- with the cell's place and its new contents, and the event goes on.
pub on_key_press_digit :
    (bindings : Cell.KeyVal → Bool) (window : Bool) (cell : Cell.Cell) (key : Cell.KeyVal) (d : ℕ)
    → cell.editable ≡ true
    → Cell.key_digit key ≡ some d
    → let (cell', requests, stop) = Cell.on_key_press bindings window cell key in
      (cell' ≡ typed cell d)
      × (signals requests ≡ (
          if Cell.digit_set d == cell.val
          then []
          else (cell.row, cell.col, Cell.digit_set d, pos 0) ∷ []))
      × (stop ≡ false)
on_key_press_digit bindings window cell key d editable is_digit =
    rw (on_key_press-pressed_key bindings window cell key d editable is_digit)
      (pressed_key_lem window cell d)

-- Any other key, and every key in a cell that is not editable, leaves the cell alone and sends no
-- signal: the library's key bindings have the event.
pub on_key_press_other :
    (bindings : Cell.KeyVal → Bool) (window : Bool) (cell : Cell.Cell) (key : Cell.KeyVal)
    → (cell.editable ≡ false) ⊎ (Cell.key_digit key ≡ none)
    → Cell.on_key_press bindings window cell key
      ≡ (cell, Cell.activate_bindings key ∷ [], bindings key)
unfolding Cell.on_key_press
on_key_press_other bindings window cell key h = ground arith

on_key_press-cell :
    (bindings : Cell.KeyVal → Bool) (window : Bool) (cell : Cell.Cell) (key : Cell.KeyVal)
    → let cell' = (Cell.on_key_press bindings window cell key).0 in
      ((d : ℕ) × (cell' ≡ typed cell d)) ⊎ (cell' ≡ cell)
unfolding Cell.on_key_press
on_key_press-cell bindings window cell key = elim (Bool-cases cell.editable) [
  | inl editable ↦ elim (Option-cases (Cell.key_digit key)) [
    | inl e ↦ inr (ap (λ r. r.0) (on_key_press_other bindings window cell key (inr e)))
    | inr (d, e) ↦ inl (d, (on_key_press_digit bindings window cell key d editable e).0)
  ]
  | inr e ↦ inr (ap (λ r. r.0) (on_key_press_other bindings window cell key (inl e)))
]

-- Whatever event reaches a cell that holds a set of digits, it holds one afterwards, and its place
-- and its being editable stay.
pub handle-IsValid :
    (bindings : Cell.KeyVal → Bool) (window : Bool) (cell : Cell.Cell) (event : Cell.Event)
    → IsValid cell
    → let cell' = (Cell.handle bindings window cell event).0 in
      IsValid cell'
      × (cell'.row ≡ cell.row)
      × (cell'.col ≡ cell.col)
      × (cell'.editable ≡ cell.editable)
unfolding Cell.handle Cell.on_focus_in Cell.on_focus_out Cell.on_button_press
handle-IsValid bindings window cell Cell.focus_in h = (h, refl, refl, refl)
handle-IsValid bindings window cell Cell.focus_out h = (h, refl, refl, refl)
handle-IsValid bindings window cell Cell.button_press h = (h, refl, refl, refl)
handle-IsValid bindings window cell (Cell.key_press key) h =
    elim (on_key_press-cell bindings window cell key) [
      | inl (d, e) ↦ rw e (digit_set-le d, refl, refl, refl)
      | inr e ↦ rw e (h, refl, refl, refl)
    ]
