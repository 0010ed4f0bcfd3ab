-- ===== src/Edit/Spec.antt =====
-- What the edit dialog promises, in terms of characters at places: no cells, sets or pointers.
use gtksudoku.Prelude.{
  ℕ, ◌+◌, ◌*◌, ◌&&◌, ◌==◌, if◌then◌else◌, none, some, List, [], ◌∷◌, get_or, Option,
}
use gtksudoku.Constants.{digits}
use gtksudoku.BoardText.{isboardchar, boardlen}
use gtksudoku.Cell
use gtksudoku.Cell.{Event, focus_in, focus_out, button_press, key_press}
use gtksudoku.Edit.{Pointer, CellEvent}

-- The character at each place of the board.
abbrev pub Chars : Type 0
Chars = ℕ → ℕ → ℕ

-- A character of the text, if it is a cell descriptor.
abbrev pub pick : ℕ → ℕ → ℕ
pick c old = if isboardchar c then c else old

-- What the dialog shows at first: the text, if it has exactly 81 cell descriptors. The character
-- for a place is the one at 9 * row + col of the text as it stands, other characters included.
unfoldable pub start : Pointer → Chars
start none i j = b'.'
start (some s) i j =
    if boardlen (some s) == digits * digits then pick (get_or s (digits * i + j) 0) b'.' else b'.'

-- The character that a key stands for.
unfoldable pub char_of_key : Cell.KeyVal → Option ℕ
char_of_key Cell.key_1 = some b'1'
char_of_key Cell.key_2 = some b'2'
char_of_key Cell.key_3 = some b'3'
char_of_key Cell.key_4 = some b'4'
char_of_key Cell.key_5 = some b'5'
char_of_key Cell.key_6 = some b'6'
char_of_key Cell.key_7 = some b'7'
char_of_key Cell.key_8 = some b'8'
char_of_key Cell.key_9 = some b'9'
char_of_key Cell.period = some b'.'
char_of_key Cell.space = some b'.'
char_of_key (Cell.other _) = none

unfoldable pub typed : Event → ℕ → ℕ
unfolding char_of_key
typed focus_in old = old
typed focus_out old = old
typed button_press old = old
typed (key_press key) old = elim (char_of_key key) [ none ↦ old | some c ↦ c ]

-- An event changes the character at its place, if it is the key of a digit, a period or a space.
unfoldable pub work : Chars → List CellEvent → Chars
work f [] = f
work f ((row, col, event) ∷ events) =
    work (λ i j. if i == row && j == col then typed event (f row col) else f i j) events
