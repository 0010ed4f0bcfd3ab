-- ===== src/Board/Grid.antt =====
-- The table of src/sudokuboard.c as a map from places to cells.
use gtksudoku.Prelude.{ℕ, ◌≡◌, some, List, ◌&&◌, ◌==◌, if◌then◌else◌, get_elem?, set}
use gtksudoku.Prelude.{arith, Option-cases, inl, inr, get_elem?-set}
use gtksudoku.Board.{cell_at, put_cell}
use gtksudoku.Cell.{Cell}

-- Writing to a place that is there changes what is read at that place, and nothing else.
pub cell_at-put_cell :
    (rows : List (List Cell)) (r c i j : ℕ) (cell : Cell) {old : Cell}
    → cell_at rows r c ≡ some old
    → cell_at (put_cell rows r c cell) i j
      ≡ (if i == r && j == c then some cell else cell_at rows i j)
unfolding cell_at put_cell
cell_at-put_cell rows r c i j cell {old} e = elim (Option-cases (get_elem? rows r)) [
  | inl missing ↦ absurd (ground arith)
  | inr (cells, there) ↦
      let here : get_elem? cells c ≡ some old = ground arith in
      rw (there, put_cell)
        (ground (
          arith,
          get_elem?-set rows r i (set cells c cell) there,
          get_elem?-set cells c j cell here,
        ))
]
