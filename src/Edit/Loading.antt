-- ===== src/Edit/Loading.antt =====
-- The edit dialog starts out with the board that it is given: `sudoku_dialog_set` on a new board.
use gtksudoku.Prelude.{ℕ, zero, suc, ◌+◌, ◌-◌, ◌*◌, ◌<◌, ◌≤◌, ◌≡◌, refl, ap, Bool, true}
use gtksudoku.Prelude.{◌&&◌, ◌==◌, leb, ltb, if◌then◌else◌, Bool-cases, inl, inr, arith}
use gtksudoku.Prelude.{
  none, some, List, [], ◌∷◌, length, get_or, drop, length-drop, get_or-drop, count_if-le-length,
}
use gtksudoku.Prelude.{pos, done}
use gtksudoku.Constants.{digits}
use gtksudoku.BoardText.{isboardchar, boardlen, boardchar2val}
use gtksudoku.Cell.Laws.{and_all_small}
use gtksudoku.BoardText.Laws.{boardchar2val-le, boardlen_mod, boardlen-null}
use gtksudoku.Cell
use gtksudoku.Board
use gtksudoku.Board.{Board}
use gtksudoku.Board.Laws.{IsBoard, value_at, new-IsBoard, new-cell_at, set_val_inside}
use gtksudoku.Edit.{Pointer, set_cols, set_rows, sudoku_dialog_set}
use gtksudoku.Edit.Spec.{Chars, pick, start}

-- The cells of a board show these characters.
pub record Shows (f : Chars) (grid : Board) : Type 0 where
  pub formed : IsBoard true grid.rows
  pub chars : (i j : ℕ) → i < digits → j < digits → isboardchar (f i j) ≡ true
  pub values :
      (i j : ℕ) → i < digits → j < digits → value_at grid.rows i j ≡ some (boardchar2val (f i j))

pub Shows-ext :
    {f g : Chars} {grid : Board}
    → ((i j : ℕ) → i < digits → j < digits → f i j ≡ g i j)
    → Shows f grid
    → Shows g grid
Shows-ext same h = record {
  formed = h.formed;
  chars = λ i j p q. rw (← same i j p q) (h.chars i j p q);
  values = λ i j p q. rw (← same i j p q) (h.values i j p q);
}

abbrev blank : Chars
blank i j = b'.'

blank_char : isboardchar b'.' ≡ true
unfolding isboardchar
blank_char = refl

new_val : (r c : ℕ) → (Cell.new r c true).0.val ≡ boardchar2val b'.'
unfolding Cell.new boardchar2val
new_val r c = refl

new-Shows : Shows blank (Board.new true)
new-Shows = record {
  formed = new-IsBoard true;
  chars = λ i j p q. blank_char;
  values = λ i j p q. rw (value_at, new-cell_at true i j p q, new_val i j);
}

-- One character written at a place.
abbrev pub write : ℕ → ℕ → ℕ → Chars → Chars
write r c char f i j = if i == r && j == c then char else f i j

boardchar2val_mask : (c : ℕ) → Cell.and_all (pos (boardchar2val c)) ≡ boardchar2val c
boardchar2val_mask c = and_all_small (boardchar2val c) (boardchar2val-le c)

-- The body of the inner loop of `sudoku_dialog_set`.
set_one :
    (window : ℕ → ℕ → Bool) (r c char : ℕ) (grid : Board) {f : Chars}
    → Shows f grid
    → r < digits
    → c < digits
    → isboardchar char ≡ true
    → (grid' : Board) × (Board.set_val window grid
          (pos r)
          (pos c)
          (pos (boardchar2val char))
          (pos 0)
        ≡ done grid')
      × Shows (write r c char f) grid'
set_one window r c char grid {f} h p q valid =
    let (grid', returns, formed, values) =
      set_val_inside window true grid r c (pos (boardchar2val char)) (pos 0) h.formed p q in
    (
      grid',
      returns,
      record {
        formed = formed;
        chars = λ i j p' q'. ground (arith, h.chars i j p' q');
        values =
            λ i j p' q'. ground (arith, values i j, h.values i j p' q', boardchar2val_mask char);
      },
    )

-- The characters of a row from a column on, read from the text.
abbrev over_row : Chars → ℕ → ℕ → ℕ → List ℕ → Chars
over_row f row col left s i j =
    if i == row && leb col j && ltb j (col + left)
    then pick (get_or s (j - col) 0) (f i j)
    else f i j

get_or-here : (c : ℕ) (s : List ℕ) (n : ℕ) → n ≡ 0 → get_or (c ∷ s) n 0 ≡ c
get_or-here c s zero e = refl
get_or-here c s (suc n) e = absurd (omega arith)

get_or-later : (c : ℕ) (s : List ℕ) (n m : ℕ) → n ≡ suc m → get_or (c ∷ s) n 0 ≡ get_or s m 0
get_or-later c s zero m e = absurd (omega arith)
get_or-later c s (suc n) m e = ap (λ k. get_or s k 0) (omega arith)

over_row_step :
    (f : Chars) (row col left c : ℕ) (s : List ℕ) (i j : ℕ)
    → over_row (write row col (pick c (f row col)) f) row (col + 1) left s i j
      ≡ over_row f row col (suc left) (c ∷ s) i j
over_row_step f row col left c s i j =
    ground (arith, get_or-here c s (j - col), get_or-later c s (j - col) (j - (col + 1)))

-- One round of the inner loop: the character is taken if it is a cell descriptor.
set_picked :
    (window : ℕ → ℕ → Bool) (r c char : ℕ) (grid : Board) {f : Chars}
    → Shows f grid
    → r < digits
    → c < digits
    → (grid' : Board) × ((if isboardchar char
          then Board.set_val window grid (pos r) (pos c) (pos (boardchar2val char)) (pos 0)
          else done grid)
        ≡ done grid')
      × Shows (write r c (pick char (f r c)) f) grid'
set_picked window r c char grid {f} h p q = elim (Bool-cases (isboardchar char)) [
  | inl valid ↦
      let (grid', returns, shown) = set_one window r c char grid h p q valid in
      (grid', rw valid returns, Shows-ext (λ i j p' q'. ground arith) shown)
  | inr other ↦ (grid, rw other, Shows-ext (λ i j p' q'. ground arith) h)
]

-- The characters of whole rows, read from the text.
abbrev over_rows : Chars → ℕ → ℕ → List ℕ → Chars
over_rows f row left s i j =
    if leb row i && ltb i (row + left)
    then pick (get_or s (digits * (i - row) + j) 0) (f i j)
    else f i j

get_or-same_row :
    (s : List ℕ) (row i j : ℕ) → i ≡ row → get_or s (digits * (i - row) + j) 0 ≡ get_or s (j - 0) 0
get_or-same_row s row i j e = ap (λ k. get_or s k 0) (omega arith)

get_or-later_row :
    (s : List ℕ) (row i j : ℕ)
    → row < i
    → get_or (drop digits s) (digits * (i - (row + 1)) + j) 0 ≡ get_or s (digits * (i - row) + j) 0
get_or-later_row s row i j h =
    rw (get_or-drop digits (digits * (i - (row + 1)) + j) s 0)
      (ap (λ k. get_or s k 0) (omega arith))

over_rows_step :
    (f : Chars) (row left : ℕ) (s : List ℕ) (i j : ℕ)
    → j < digits
    → over_rows (over_row f row 0 digits s) (row + 1) left (drop digits s) i j
      ≡ over_rows f row (suc left) s i j
over_rows_step f row left s i j h =
    ground (arith, get_or-same_row s row i j, get_or-later_row s row i j)

module _ (window : ℕ → ℕ → Bool) where
  set_cols-Shows :
      (row left col : ℕ) (grid : Board) (s : List ℕ) {f : Chars}
      → Shows f grid
      → row < digits
      → col + left ≤ digits
      → left ≤ length s
      → (grid' : Board) × (set_cols window row left col grid (some s)
          ≡ done (grid', some (drop left s)))
        × Shows (over_row f row col left s) grid'
  unfolding set_cols
  set_cols-Shows row zero col grid s h p q fits =
      (grid, refl, Shows-ext (λ i j p' q'. ground arith) h)
  set_cols-Shows row (suc left) col grid [] h p q fits = absurd (omega arith)
  set_cols-Shows row (suc left) col grid (c ∷ s) {f} h p q fits =
      let (grid', returns, shown) = set_picked window row col c grid h p (omega arith) in
      let (grid'', rest, shown') =
        set_cols-Shows row left (col + 1) grid' s shown p (omega arith) (omega arith) in
      (
        grid'',
        rw returns rest,
        Shows-ext (λ i j p' q'. over_row_step f row col left c s i j) shown',
      )

  set_rows-Shows :
      (left row : ℕ) (grid : Board) (s : List ℕ) {f : Chars}
      → Shows f grid
      → row + left ≤ digits
      → digits * left ≤ length s
      → (grid' : Board) × (p : Pointer) × (set_rows window left row grid (some s) ≡ done (grid', p))
        × Shows (over_rows f row left s) grid'
  unfolding set_rows
  set_rows-Shows zero row grid s h p fits =
      (grid, some s, refl, Shows-ext (λ i j p' q'. ground arith) h)
  set_rows-Shows (suc left) row grid s {f} h p fits =
      let (grid', returns, shown) =
        set_cols-Shows row digits 0 grid s h (omega arith) (omega arith) (omega arith) in
      let (grid'', q, rest, shown') =
        set_rows-Shows left (row + 1) grid' (drop digits s) shown (omega arith)
          (omega (arith, length-drop digits s)) in
      (
        grid'',
        q,
        rw returns rest,
        Shows-ext (λ i j p' q'. over_rows_step f row left s i j q') shown',
      )

  -- The dialog starts out with the text, or blank if the text is no board, and never reads outside
  -- the text.
  pub dialog_set-Shows :
      (board : Pointer)
      → (grid : Board) × (sudoku_dialog_set window (Board.new true) board ≡ done grid)
        × Shows (start board) grid
  unfolding sudoku_dialog_set start
  dialog_set-Shows none = (Board.new true, rw boardlen-null, new-Shows)
  dialog_set-Shows (some s) = elim (Bool-cases (boardlen (some s) == digits * digits)) [
    | inl e ↦
        let fits : digits * digits ≤ length s =
          ground (arith, boardlen_mod s, count_if-le-length isboardchar s) in
        let (grid, p, returns, shown) =
          set_rows-Shows digits 0 (Board.new true) s new-Shows (omega arith) fits in
        (grid, rw (e, returns), Shows-ext (λ i j p' q'. rw e (ground arith)) shown)
    | inr e ↦ (Board.new true, rw e, Shows-ext (λ i j p' q'. rw e) new-Shows)
  ]
