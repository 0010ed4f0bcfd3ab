-- ===== src/Edit/Session.antt =====
-- The user's work in the edit dialog, and the string that it returns.
use gtksudoku.Prelude.{ℕ, ◌<◌, ◌≡◌, refl, ◌∙◌, Bool, true}
use gtksudoku.Prelude.{◌⊎◌, none, some, inl, inr, arith}
use gtksudoku.Cell.Laws.{digit_char}
use gtksudoku.Prelude.{List, [], ◌∷◌, ◌++◌}
use gtksudoku.Prelude.{done}
use gtksudoku.Constants.{digits}
use gtksudoku.BoardText.{isboardchar, boardchar2val}
use gtksudoku.Cell
use gtksudoku.Cell.{Event}
use gtksudoku.Cell.Laws.{
  handle-IsValid, digit_char_lem, key_digit-lt, on_key_press_digit, on_key_press_other,
}
use gtksudoku.Board
use gtksudoku.Board.{Board, put_cell}
use gtksudoku.Board.Laws.{update_lem, put_cell-IsBoard}
use gtksudoku.Board.Grid.{cell_at-put_cell}
use gtksudoku.Edit.{CellEvent, on_event, run_events}
use gtksudoku.Edit.Spec.{Chars, char_of_key, typed, work}
use gtksudoku.Edit.Loading.{Shows, write}

-- The events that a dialog can send are at the places of its cells.
abbrev pub InBoard : List CellEvent → Type 0
InBoard [] = Unit
InBoard ((row, col, event) ∷ events) = (row < digits) × (col < digits) × InBoard events

char_of_key_lem :
    (key : Cell.KeyVal)
    → ((Cell.key_digit key ≡ none) × (char_of_key key ≡ none))
      ⊎ ((d : ℕ) × (Cell.key_digit key ≡ some d) × (char_of_key key ≡ some (digit_char d)))
unfolding Cell.key_digit char_of_key
char_of_key_lem Cell.key_1 = inr (1, refl, refl)
char_of_key_lem Cell.key_2 = inr (2, refl, refl)
char_of_key_lem Cell.key_3 = inr (3, refl, refl)
char_of_key_lem Cell.key_4 = inr (4, refl, refl)
char_of_key_lem Cell.key_5 = inr (5, refl, refl)
char_of_key_lem Cell.key_6 = inr (6, refl, refl)
char_of_key_lem Cell.key_7 = inr (7, refl, refl)
char_of_key_lem Cell.key_8 = inr (8, refl, refl)
char_of_key_lem Cell.key_9 = inr (9, refl, refl)
char_of_key_lem Cell.period = inr (0, refl, refl)
char_of_key_lem Cell.space = inr (0, refl, refl)
char_of_key_lem (Cell.other n) = inl (refl, refl)

-- In an editable cell that shows a character, an event leaves the character that `typed` names.
handle-typed :
    (bindings : Cell.KeyVal → Bool) (window : Bool) (cell : Cell.Cell) (event : Event) (old : ℕ)
    → cell.editable ≡ true
    → isboardchar old ≡ true
    → cell.val ≡ boardchar2val old
    → let cell' = (Cell.handle bindings window cell event).0 in
      (cell'.val ≡ boardchar2val (typed event old)) × (isboardchar (typed event old) ≡ true)
unfolding Cell.handle Cell.on_focus_in Cell.on_focus_out Cell.on_button_press typed
handle-typed bindings window cell Cell.focus_in old e v h = (h, v)
handle-typed bindings window cell Cell.focus_out old e v h = (h, v)
handle-typed bindings window cell Cell.button_press old e v h = (h, v)
handle-typed bindings window cell (Cell.key_press key) old e v h = elim (char_of_key_lem key) [
  | inl (k, f) ↦ ground (arith, f, on_key_press_other bindings window cell key (inr k))
  | inr (d, k, f) ↦ ground (
    arith,
    f,
    digit_char_lem d (key_digit-lt key k),
    on_key_press_digit bindings window cell key d e k,
  )
]

-- One event at a place of the board.
run_one :
    (bindings : Cell.KeyVal → Bool) (window : Bool) (r c : ℕ) (event : Event) (grid : Board)
    {f : Chars}
    → Shows f grid
    → r < digits
    → c < digits
    → (grid' : Board) × (Board.update grid r c (on_event bindings window event) ≡ done grid')
      × Shows (write r c (typed event (f r c)) f) grid'
run_one bindings window r c event grid {f} h p q =
    let held = h.formed r c p q in
    let cell' : Cell.Cell = (Cell.handle bindings window held.cell event).0 in
    let shows : held.cell.val ≡ boardchar2val (f r c) =
      ground (arith, held.there, h.values r c p q) in
    let kept = handle-IsValid bindings window held.cell event held.val_le in
    let char =
      handle-typed bindings window held.cell event (f r c) held.editable_eq (h.chars r c p q)
        shows in
    (
      record {
        rows = put_cell grid.rows r c cell';
        requests = grid.requests ++ (Cell.handle bindings window held.cell event).1;
      },
      update_lem grid r c (on_event bindings window event) held.there,
      record {
        formed =
            put_cell-IsBoard true grid.rows r c cell' h.formed p q
              (kept.1 ∙ held.row_eq, kept.2 ∙ held.col_eq, kept.0, kept.3 ∙ held.editable_eq);
        chars = λ i j p' q'. ground (arith, h.chars i j p' q', char);
        values = λ i j p' q'.
            ground (
              arith,
              cell_at-put_cell grid.rows r c i j cell' held.there,
              h.values i j p' q',
              char,
            );
      },
    )

module _ (window : ℕ → ℕ → Bool) (bindings : Cell.KeyVal → Bool) where
  pub run_events-Shows :
      (events : List CellEvent) (grid : Board) {f : Chars}
      → Shows f grid
      → InBoard events
      → (grid' : Board) × (run_events window bindings grid events ≡ done grid')
        × Shows (work f events) grid'
  unfolding run_events work
  run_events-Shows [] grid h ok = (grid, refl, h)
  run_events-Shows ((row, col, event) ∷ events) grid h (p, q, ok) =
      let (grid', returns, shown) = run_one bindings (window row col) row col event grid h p q in
      let (grid'', rest, shown') = run_events-Shows events grid' shown ok in
      (grid'', rw returns rest, shown')
