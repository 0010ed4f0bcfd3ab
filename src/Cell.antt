-- ===== src/Cell.antt =====
-- src/sudokucell.c: the state of one cell and its handlers. What a handler asks of the GTK library
-- is returned as a list of requests, in the order of the calls. The library itself, and whether
-- the widget has a window yet, are arguments. The drawing routines are in Cell/Draw.
pub mod Laws
pub mod Keys
pub mod Draw
pub mod Class
use gtksudoku.Prelude.{ℕ, ◌+◌, ◌-◌, ◌*◌, ◌%◌, ◌^◌, Bool, true, false, not, ◌&&◌, ◌||◌}
use gtksudoku.Prelude.{Option, none, some, List, [], ◌∷◌, ◌++◌, leb, ◌==◌, if◌then◌else◌}
use gtksudoku.Prelude.{ℤ, pos, negsuc, ◌==ℤ◌}
use gtksudoku.Constants.{digits, all}

-- `SudokuCellPrivate`. The set of digits is never negative, since `set_val` masks it.
pub record Cell : Type 0 where
  pub row : ℕ
  pub col : ℕ
  pub val : ℕ
  pub mode : ℤ
  pub editable : Bool

-- The key symbols that the handler of key presses tells apart; the rest by their number.
pub data KeyVal : Type 0 where
  key_1 key_2 key_3 key_4 key_5 key_6 key_7 key_8 key_9 period space : KeyVal
  other : ℕ → KeyVal

pub data Background : Type 0 where
  white gray : Background

-- The calls of the library that a cell or its board makes.
pub data Request : Type 0 where
  ensure_style invalidate_region process_updates destroy_region grab_focus : Request
  add_events set_can_focus critical_warning : Request
  modify_bg : Background → Request
  activate_bindings : KeyVal → Request
  emit_changed : ℕ → ℕ → ℕ → ℤ → Request

-- The events that `sudoku_cell_class_init` binds to handlers, but for drawing and sizes.
pub data Event : Type 0 where
  focus_in focus_out button_press : Event
  key_press : KeyVal → Event

-- `val & ALL` for an `int` in two's complement.
unfoldable pub and_all : ℤ → ℕ
and_all (pos n) = n % 2 ^ digits
and_all (negsuc n) = all - n % 2 ^ digits

-- `sudoku_cell_init`: the fields that it leaves alone are zero.
pub init : Cell × List Request
init = (
  record { row = 0; col = 0; val = all; mode = pos 0; editable = false },
  ensure_style ∷ modify_bg white ∷ [],
)

-- `sudoku_cell_new`
unfoldable pub new : ℕ → ℕ → Bool → Cell × List Request
unfolding init
new row col editable =
    let (cell, requests) = init in
    (
      record cell { row = row; col = col; editable = editable },
      requests ++ (if editable then add_events ∷ set_can_focus ∷ [] else []),
    )

-- `sudoku_cell_size_request`, from the height in pixels of a line in the default font: the width
-- and the height that the cell asks for.
unfoldable pub size_request : ℕ → ℕ × ℕ
size_request height = (3 * height, 3 * height)

-- What the two functions below return through their arguments: the minimal and the natural size.
abbrev pub Preferred : Type 0
Preferred = ℕ × ℕ

-- `sudoku_cell_get_preferred_width` and its twin.
unfoldable pub get_preferred_width : ℕ → Preferred
unfolding size_request
get_preferred_width height = ((size_request height).0, (size_request height).0)

unfoldable pub get_preferred_height : ℕ → Preferred
unfolding size_request
get_preferred_height height = ((size_request height).1, (size_request height).1)

-- `sudoku_cell_redraw_canvas`; the argument says whether the widget has a window.
unfoldable pub redraw_canvas : Bool → List Request
redraw_canvas window =
    if not window then [] else invalidate_region ∷ process_updates ∷ destroy_region ∷ []

-- `sudoku_cell_set_val`
unfoldable pub set_val : Bool → Cell → ℤ → ℤ → Cell × List Request
set_val window cell val mode =
    let masked = and_all val in
    if not (cell.val == masked) || not (cell.mode ==ℤ mode)
    then (record cell { val = masked; mode = mode }, redraw_canvas window)
    else (cell, [])

-- `sudoku_cell_get_val`
unfoldable pub get_val : Cell → ℤ
get_val cell = pos cell.val

unfoldable pub digit_set : ℕ → ℕ
digit_set digit = if leb 1 digit && leb digit 9 then 2 ^ (digit - 1) else all

-- Every handler returns the cell, its requests, and whether the event ends here.
abbrev pub Handled : Type 0
Handled = Cell × List Request × Bool

unfoldable pub pressed_key : Bool → Cell → ℕ → Handled
pressed_key window cell digit =
    let old = cell.val in
    let (cell', requests) = set_val window cell (pos (digit_set digit)) (pos 0) in
    let signal = emit_changed cell'.row cell'.col cell'.val cell'.mode in
    (cell', requests ++ (if not (digit_set digit == old) then signal ∷ [] else []), false)

-- The case labels of the switch in `sudoku_cell_key_press`.
unfoldable pub key_digit : KeyVal → Option ℕ
key_digit key_1 = some 1
key_digit key_2 = some 2
key_digit key_3 = some 3
key_digit key_4 = some 4
key_digit key_5 = some 5
key_digit key_6 = some 6
key_digit key_7 = some 7
key_digit key_8 = some 8
key_digit key_9 = some 9
key_digit period = some 0
key_digit space = some 0
key_digit (other _) = none

-- `sudoku_cell_key_press`; `bindings` is what `gtk_bindings_activate_event` answers.
unfoldable pub on_key_press : (KeyVal → Bool) → Bool → Cell → KeyVal → Handled
on_key_press bindings window cell key =
    let rest : Handled = (cell, activate_bindings key ∷ [], bindings key) in
    if cell.editable
    then elim (key_digit key) [ some digit ↦ pressed_key window cell digit | none ↦ rest ]
    else rest

unfoldable pub on_focus_in : Bool → Cell → Handled
on_focus_in window cell = (cell, modify_bg gray ∷ redraw_canvas window, false)

unfoldable pub on_focus_out : Bool → Cell → Handled
on_focus_out window cell = (cell, modify_bg white ∷ redraw_canvas window, false)

unfoldable pub on_button_press : Cell → Handled
on_button_press cell = (cell, grab_focus ∷ [], false)

-- The handlers that `sudoku_cell_class_init` installs.
unfoldable pub handle : (KeyVal → Bool) → Bool → Cell → Event → Handled
handle bindings window cell focus_in = on_focus_in window cell
handle bindings window cell focus_out = on_focus_out window cell
handle bindings window cell button_press = on_button_press cell
handle bindings window cell (key_press key) = on_key_press bindings window cell key
