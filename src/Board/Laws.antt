-- ===== src/Board/Laws.antt =====
-- The operations of src/sudokuboard.c on a well-formed board.
use gtksudoku.Prelude.{ℕ, zero, suc, ◌+◌, ◌<◌, ◌≤◌, ◌≡◌, refl, ◌≢◌, ap, ap₂, ◌∙◌, Bool, ◌&&◌}
use gtksudoku.Prelude.{Option, none, some, List, ◌++◌, get_elem?, ℤ, pos, negsuc}
use gtksudoku.Prelude.{◌==◌, ltb, if◌then◌else◌, Bool-cases, inl, inr, ◌⊎◌, arith}
use gtksudoku.Prelude.{done}
use gtksudoku.Constants.{digits, all}
use gtksudoku.Cell
use gtksudoku.Cell.{Cell}
use gtksudoku.Cell.Laws.{set_val_lem, and_all-le}
use gtksudoku.Board
use gtksudoku.Board.{Board, cell_at, put_cell, index, update, warn}
use gtksudoku.Board.Grid.{cell_at-put_cell}

-- What stands at a place of a well-formed board: a cell that knows its place.
pub record Holds (editable : Bool) (rows : List (List Cell)) (r c : ℕ) : Type 0 where
  pub cell : Cell
  pub there : cell_at rows r c ≡ some cell
  pub row_eq : cell.row ≡ r
  pub col_eq : cell.col ≡ c
  pub val_le : cell.val ≤ all
  pub editable_eq : cell.editable ≡ editable

abbrev pub IsBoard : Bool → List (List Cell) → Type 0
IsBoard editable rows = (r c : ℕ) → r < digits → c < digits → Holds editable rows r c

new_row_lem :
    (e : Bool) (row left col j : ℕ)
    → j < left
    → get_elem? (Board.new_row e row left col).0 j ≡ some (Cell.new row (col + j) e).0
unfolding Board.new_row
new_row_lem e row zero col j h = absurd (omega arith)
new_row_lem e row (suc left) col zero h = ap (λ t. some (Cell.new row t e).0) (omega arith)
new_row_lem e row (suc left) col (suc j) h =
    new_row_lem e row left (col + 1) j (omega arith)
    ∙ ap (λ t. some (Cell.new row t e).0) (omega arith)

new_rows_lem :
    (e : Bool) (left row i : ℕ)
    → i < left
    → get_elem? (Board.new_rows e left row).0 i ≡ some (Board.new_row e (row + i) digits 0).0
unfolding Board.new_rows
new_rows_lem e zero row i h = absurd (omega arith)
new_rows_lem e (suc left) row zero h = ap (λ t. some (Board.new_row e t digits 0).0) (omega arith)
new_rows_lem e (suc left) row (suc i) h =
    new_rows_lem e left (row + 1) i (omega arith)
    ∙ ap (λ t. some (Board.new_row e t digits 0).0) (omega arith)

pub new-cell_at :
    (e : Bool) (r c : ℕ)
    → r < digits
    → c < digits
    → cell_at (Board.new e).rows r c ≡ some (Cell.new r c e).0
unfolding Board.new cell_at
new-cell_at e r c p q = rw (new_rows_lem e digits 0 r p) (
    new_row_lem e (0 + r) digits 0 c q
    ∙ ap₂ (λ s t. some (Cell.new s t e).0) (omega arith) (omega arith))

-- A new board is well formed: every place has a cell that knows its place and shows all digits.
pub new-IsBoard : (e : Bool) → IsBoard e (Board.new e).rows
unfolding Cell.new
new-IsBoard e r c p q = record {
  cell = (Cell.new r c e).0;
  there = new-cell_at e r c p q;
  row_eq = refl;
  col_eq = refl;
  val_le = omega arith;
  editable_eq = refl;
}

index_pos : (i : ℕ) → i < digits → index (pos i) ≡ some i
unfolding index
index_pos i h = ground arith

-- The step of both operations on a place that is there.
pub update_lem :
    (b : Board) (r c : ℕ) (change : Cell → Cell × List Cell.Request) {x : Cell}
    → cell_at b.rows r c ≡ some x
    → update b r c change
      ≡ done (record {
        rows = put_cell b.rows r c (change x).0;
        requests = b.requests ++ (change x).1;
      })
unfolding update
update_lem b r c change e = rw e

-- A write to a place that is there keeps the board well formed, as far as the new cell is.
pub put_cell-IsBoard :
    (e : Bool) (rows : List (List Cell)) (r c : ℕ) (x : Cell)
    → IsBoard e rows
    → r < digits
    → c < digits
    → (x.row ≡ r) × (x.col ≡ c) × (x.val ≤ all) × (x.editable ≡ e)
    → IsBoard e (put_cell rows r c x)
put_cell-IsBoard e rows r c x ok p q (row, col, val, editable) i j p' q' =
    let old = ok i j p' q' in
    let read = cell_at-put_cell rows r c i j x (ok r c p q).there in
    elim (Bool-cases (i == r && j == c)) [
      | inl same ↦ record {
        cell = x;
        there = rw (read, same);
        row_eq = ground (arith, row);
        col_eq = ground (arith, col);
        val_le = val;
        editable_eq = editable;
      }
      | inr other ↦ record {
        cell = old.cell;
        there = rw (read, other) old.there;
        row_eq = old.row_eq;
        col_eq = old.col_eq;
        val_le = old.val_le;
        editable_eq = old.editable_eq;
      }
    ]

-- The number that `get_val` reads at a place, if it reads one.
abbrev pub value_at : List (List Cell) → ℕ → ℕ → Option ℕ
value_at rows r c = elim (cell_at rows r c) [ none ↦ none | some x ↦ some x.val ]

-- An `int` that is no index of the table.
abbrev pub Outside : ℤ → Type 0
Outside i = (n : ℕ) → n < digits → i ≢ pos n

index-Outside : (i : ℤ) → Outside i → index i ≡ none
unfolding index
index-Outside (pos n) h = elim (Bool-cases (ltb n digits)) [
  | inl e ↦ absurd (h n (ground arith) refl)
  | inr e ↦ rw e
]
index-Outside (negsuc n) h = refl

-- Inside the table `get_val` on a well-formed board never faults: it answers the set of digits
-- that the cell holds, and asks nothing of the library.
pub get_val_inside :
    (e : Bool) (b : Board) (r c : ℕ)
    → IsBoard e b.rows
    → r < digits
    → c < digits
    → (v : ℕ) × (v ≤ all)
      × (value_at b.rows r c ≡ some v)
      × (Board.get_val b (pos r) (pos c) ≡ done (pos v, b))
unfolding Board.get_val Cell.get_val
get_val_inside e b r c ok p q =
    let held = ok r c p q in
    (
      held.cell.val,
      held.val_le,
      rw (held.there, value_at),
      rw (Board.get_val, index_pos r p, index_pos c q, held.there),
    )

-- Outside of the table both operations warn, change no cell, and `get_val` answers -1.
pub outside_lem :
    (window : ℕ → ℕ → Bool) (b : Board) (row col v m : ℤ)
    → Outside row ⊎ Outside col
    → (Board.get_val b row col ≡ done (negsuc 0, warn b))
      × (Board.set_val window b row col v m ≡ done (warn b))
unfolding Board.get_val Board.set_val
outside_lem window b row col v m (inl h) = ground (arith, index-Outside row h)
outside_lem window b row col v m (inr h) = ground (arith, index-Outside col h)

module _ (window : ℕ → ℕ → Bool) (e : Bool) (b : Board) (r c : ℕ) (v m : ℤ) where
  pub set_val_cells :
      (ok : IsBoard e b.rows) (p : r < digits) (q : c < digits)
      → let x = (ok r c p q).cell in
        let out = Cell.set_val (window r c) x v m in
        Board.set_val window b (pos r) (pos c) v m
        ≡ done (record { rows = put_cell b.rows r c out.0; requests = b.requests ++ out.1 })
  unfolding Board.set_val
  set_val_cells ok p q =
      rw (Board.set_val, index_pos r p, index_pos c q) (update_lem b r c _ (ok r c p q).there)

  -- Inside the table `set_val` on a well-formed board never faults and leaves it well formed: the
  -- cell at the place holds the lowest nine bits of the value, and every other cell what it held.
  pub set_val_inside :
      IsBoard e b.rows
      → r < digits
      → c < digits
      → (b' : Board) × (Board.set_val window b (pos r) (pos c) v m ≡ done b')
        × IsBoard e b'.rows
        × ((i j : ℕ)
            → value_at b'.rows i j
              ≡ (if i == r && j == c then some (Cell.and_all v) else value_at b.rows i j))
  set_val_inside ok p q =
      let held = ok r c p q in
      let out = Cell.set_val (window r c) held.cell v m in
      let cell_eq = set_val_lem (window r c) held.cell v m in
      (
        record { rows = put_cell b.rows r c out.0; requests = b.requests ++ out.1 },
        set_val_cells ok p q,
        put_cell-IsBoard e b.rows r c out.0 ok p q
            (rw cell_eq (held.row_eq, held.col_eq, and_all-le v, held.editable_eq)),
        λ i j. ground (arith, cell_at-put_cell b.rows r c i j out.0 held.there, cell_eq),
      )
