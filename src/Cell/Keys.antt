-- ===== src/Cell/Keys.antt =====
-- What a cell of src/sudokucell.c holds after a sequence of events and of calls of
-- `sudoku_cell_set_val`, by a table of the keys.
use gtksudoku.Prelude.{
  ℕ, ◌-◌, ◌%◌, ◌≡◌, ◌⊎◌, refl, Bool, true, false, Option, none, some, List, [], ◌∷◌, ◌==◌,
  if◌then◌else◌,
}
use gtksudoku.Prelude.{ℤ, pos, negsuc, arith, ap, ◌∙◌, Bool-cases, inl, inr}
use gtksudoku.Cell
use gtksudoku.Cell.Laws.{signals, set_val_lem, on_key_press_digit, on_key_press_other}

-- The set of digits that a key stands for, as a number: the bit of its digit, or all nine.
unfoldable pub set_of_key : Cell.KeyVal → Option ℕ
set_of_key Cell.key_1 = some 1
set_of_key Cell.key_2 = some 2
set_of_key Cell.key_3 = some 4
set_of_key Cell.key_4 = some 8
set_of_key Cell.key_5 = some 16
set_of_key Cell.key_6 = some 32
set_of_key Cell.key_7 = some 64
set_of_key Cell.key_8 = some 128
set_of_key Cell.key_9 = some 256
set_of_key Cell.period = some 511
set_of_key Cell.space = some 511
set_of_key (Cell.other _) = none

set_of_key_lem :
    (key : Cell.KeyVal)
    → ((Cell.key_digit key ≡ none) × (set_of_key key ≡ none))
      ⊎ ((d : ℕ) × (Cell.key_digit key ≡ some d) × (set_of_key key ≡ some (Cell.digit_set d)))
unfolding Cell.key_digit Cell.digit_set set_of_key
set_of_key_lem Cell.key_1 = inr (1, refl, refl)
set_of_key_lem Cell.key_2 = inr (2, refl, refl)
set_of_key_lem Cell.key_3 = inr (3, refl, refl)
set_of_key_lem Cell.key_4 = inr (4, refl, refl)
set_of_key_lem Cell.key_5 = inr (5, refl, refl)
set_of_key_lem Cell.key_6 = inr (6, refl, refl)
set_of_key_lem Cell.key_7 = inr (7, refl, refl)
set_of_key_lem Cell.key_8 = inr (8, refl, refl)
set_of_key_lem Cell.key_9 = inr (9, refl, refl)
set_of_key_lem Cell.period = inr (0, refl, refl)
set_of_key_lem Cell.space = inr (0, refl, refl)
set_of_key_lem (Cell.other n) = inl (refl, refl)

-- The answer to a key: the cell, the signals that the board gets, and whether the event ends here.
abbrev pub Answer : Type 0
Answer = Cell.Cell × List (ℕ × ℕ × ℕ × ℤ) × Bool

unfoldable pub typed_set : Cell.Cell → ℕ → Answer
typed_set cell v = (
  record cell { val = v; mode = pos 0 },
  if v == cell.val then [] else (cell.row, cell.col, v, pos 0) ∷ [],
  false,
)

unfoldable pub answer_to : (Cell.KeyVal → Bool) → Cell.Cell → Cell.KeyVal → Answer
unfolding set_of_key typed_set
answer_to bindings cell key =
    let rest : Answer = (cell, [], bindings key) in
    if cell.editable
    then (elim (set_of_key key) [ none ↦ rest | some v ↦ typed_set cell v ])
    else rest

answer_of : Cell.Handled → Answer
answer_of (cell, requests, stop) = (cell, signals requests, stop)

-- Every key in every cell: in an editable cell the keys 1 to 9 set the bit of their digit, the period
-- and the space bar all nine, drawn as a numeral, and the board is told of the place and the new
-- contents if and only if the set is another one; any other key, and every key in a cell that is
-- not editable, changes nothing, sends no signal and is left to the key bindings.
pub on_key_press_lem :
    (bindings : Cell.KeyVal → Bool) (window : Bool) (cell : Cell.Cell) (key : Cell.KeyVal)
    → let (cell', requests, stop) = Cell.on_key_press bindings window cell key in
      (cell', signals requests, stop) ≡ answer_to bindings cell key
unfolding answer_to typed_set signals
on_key_press_lem bindings window cell key = elim (set_of_key_lem key) [
  | inl (e, f) ↦ rw (on_key_press_other bindings window cell key (inr e), f) ground (arith)
  | inr (d, e, f) ↦ elim (Bool-cases cell.editable) [
    | inr closed ↦ rw (on_key_press_other bindings window cell key (inl closed), closed) refl
    | inl editable ↦
        let (at, sent, goes_on) = on_key_press_digit bindings window cell key d editable e in
        rw (at, sent, goes_on, f, editable) refl
  ]
]

-- What reaches a cell: an event, or a call of `sudoku_cell_set_val`.
pub data Action : Type 0 where
  event : Cell.Event → Action
  set_to : ℤ → ℤ → Action

unfoldable pub run : (Cell.KeyVal → Bool) → Bool → Cell.Cell → List Action → Cell.Cell
run bindings window cell [] = cell
run bindings window cell (event e ∷ rest) =
    run bindings window (Cell.handle bindings window cell e).0 rest
run bindings window cell (set_to v m ∷ rest) =
    run bindings window (Cell.set_val window cell v m).0 rest

-- The lowest nine bits of an integer in two's complement.
unfoldable pub nine_bits : ℤ → ℕ
nine_bits (pos n) = n % 512
nine_bits (negsuc n) = 511 - n % 512

-- The set and the mode that a cell shows in the end, which may be editable.
unfoldable pub shown_by : Bool → ℕ × ℤ → List Action → ℕ × ℤ
unfolding set_of_key nine_bits
shown_by editable shown [] = shown
shown_by editable shown (set_to v m ∷ rest) = shown_by editable (nine_bits v, m) rest
shown_by editable shown (event (Cell.key_press key) ∷ rest) =
    shown_by editable
      (if editable then (elim (set_of_key key) [ none ↦ shown | some v ↦ (v, pos 0) ]) else shown)
      rest
shown_by editable shown (event _ ∷ rest) = shown_by editable shown rest

nine_bits_lem : (v : ℤ) → Cell.and_all v ≡ nine_bits v
unfolding Cell.and_all nine_bits
nine_bits_lem (pos n) = refl
nine_bits_lem (negsuc n) = refl

key_press-cell :
    (bindings : Cell.KeyVal → Bool) (window : Bool) (cell : Cell.Cell) (key : Cell.KeyVal)
    → (Cell.on_key_press bindings window cell key).0 ≡ (answer_to bindings cell key).0
key_press-cell bindings window cell key =
    ap (λ (a : Answer). a.0) (on_key_press_lem bindings window cell key)

-- What a cell shows behind a key, if it may be edited, and the key has a set.
abbrev behind : Bool → Option ℕ → ℕ × ℤ → ℕ × ℤ
behind editable set shown =
    if editable then (elim set [ none ↦ shown | some v ↦ (v, pos 0) ]) else shown

answer-cases :
    (cell : Cell.Cell) (rest : Answer) (editable : Bool) (set : Option ℕ)
    → rest.0 ≡ cell
    → let shown = behind editable set (cell.val, cell.mode) in
      (if editable then (elim set [ none ↦ rest | some v ↦ typed_set cell v ]) else rest).0
      ≡ record cell { val = shown.0; mode = shown.1 }
unfolding typed_set
answer-cases cell rest true none e = e
answer-cases cell rest true (some v) e = refl
answer-cases cell rest false set e = e

answer-shown :
    (bindings : Cell.KeyVal → Bool) (cell : Cell.Cell) (key : Cell.KeyVal)
    → let shown = behind cell.editable (set_of_key key) (cell.val, cell.mode) in
      (answer_to bindings cell key).0 ≡ record cell { val = shown.0; mode = shown.1 }
unfolding answer_to
answer-shown bindings cell key =
    answer-cases cell (cell, [], bindings key) cell.editable (set_of_key key) refl

-- Whatever events and calls of `sudoku_cell_set_val` with whatever integers reach a cell, in any
-- order: in the end it shows the lowest nine bits of the value last set or the set of the key last
-- pressed, if it is editable, whichever came later, and the mode last set, or 0 for a key; its
-- place and its being editable stay.
pub run_lem :
    (bindings : Cell.KeyVal → Bool) (window : Bool) (actions : List Action) (cell : Cell.Cell)
    → let (val, mode) = shown_by cell.editable (cell.val, cell.mode) actions in
      run bindings window cell actions ≡ record cell { val = val; mode = mode }
unfolding run shown_by Cell.handle Cell.on_focus_in Cell.on_focus_out Cell.on_button_press
run_lem bindings window [] cell = refl
run_lem bindings window (set_to v m ∷ rest) cell =
    ap (λ c. run bindings window c rest) (set_val_lem window cell v m)
    ∙ (run_lem bindings window rest (record cell { val = Cell.and_all v; mode = m })
        ∙ ap
            (λ n.
              let r = shown_by cell.editable (n, m) rest in record cell { val = r.0; mode = r.1 })
            (nine_bits_lem v))
run_lem bindings window (event Cell.focus_in ∷ rest) cell = run_lem bindings window rest cell
run_lem bindings window (event Cell.focus_out ∷ rest) cell = run_lem bindings window rest cell
run_lem bindings window (event Cell.button_press ∷ rest) cell = run_lem bindings window rest cell
run_lem bindings window (event (Cell.key_press key) ∷ rest) cell =
    let shown = behind cell.editable (set_of_key key) (cell.val, cell.mode) in
    ap (λ c. run bindings window c rest)
      (key_press-cell bindings window cell key ∙ answer-shown bindings cell key)
    ∙ run_lem bindings window rest (record cell { val = shown.0; mode = shown.1 })
