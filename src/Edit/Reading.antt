-- ===== src/Edit/Reading.antt =====
-- The string that the edit dialog returns: the loops that read the board back.
use gtksudoku.Prelude.{
  ℕ, zero, suc, ◌+◌, ◌*◌, ◌<◌, ◌≤◌, ◌≡◌, refl, ap, ap₂, ◌∙◌, some, List, [], ◌∷◌, ◌++◌,
}
use gtksudoku.Prelude.{
  arith, length, length-append, get_elem?, get_elem?-append_left, get_elem?-append_right,
}
use gtksudoku.Prelude.{true, pos, done}
use gtksudoku.Constants.{digits}
use gtksudoku.BoardText.{val2boardchar}
use gtksudoku.BoardText.Laws.{val2boardchar-boardchar2val}
use gtksudoku.Board.{Board}
use gtksudoku.Board.Laws.{get_val_inside}
use gtksudoku.Edit.{read_cols, read_rows}
use gtksudoku.Edit.Spec.{Chars}
use gtksudoku.Edit.Loading.{Shows}

-- A list that lists a function from `k` on, with one more value in front.
listed-cons :
    (f : ℕ → ℕ) (k left x : ℕ) (out : List ℕ)
    → x ≡ f k
    → ((j : ℕ) → j < left → get_elem? out j ≡ some (f (k + 1 + j)))
    → (j : ℕ) → j < suc left
    → get_elem? (x ∷ out) j ≡ some (f (k + j))
listed-cons f k left x out e rest zero lt = ap some (e ∙ ap f (omega arith))
listed-cons f k left x out e rest (suc j) lt =
    rest j (omega arith) ∙ ap (λ n. some (f n)) (omega arith)

-- Reading a row back: the characters that its cells show.
read_cols-Shows :
    (row left col : ℕ) (grid : Board) {f : Chars}
    → Shows f grid
    → row < digits
    → col + left ≤ digits
    → (out : List ℕ) × (read_cols row left col grid ≡ done (out, grid))
      × (length out ≡ left)
      × ((j : ℕ) → j < left → get_elem? out j ≡ some (f row (col + j)))
unfolding read_cols
read_cols-Shows row zero col grid h p q = ([], refl, refl, λ j lt. absurd (omega arith))
read_cols-Shows row (suc left) col grid {f} h p q =
    let here : col < digits = omega arith in
    let (v, small, there, returns) = get_val_inside true grid row col h.formed p here in
    let (out, rest, len, chars) = read_cols-Shows row left (col + 1) grid h p (omega arith) in
    let char : val2boardchar (pos v) ≡ f row col =
      ap val2boardchar (ground (arith, there, h.values row col p here))
      ∙ val2boardchar-boardchar2val (f row col) (h.chars row col p here) in
    (
      val2boardchar (pos v) ∷ out,
      rw (returns, rest),
      ap suc len,
      listed-cons (f row) col left (val2boardchar (pos v)) out char chars,
    )

-- A row of nine in front of the rows behind it.
listed-append :
    (f : ℕ → ℕ → ℕ) (row left : ℕ) (cols out : List ℕ)
    → length cols ≡ digits
    → ((j : ℕ) → j < digits → get_elem? cols j ≡ some (f row (0 + j)))
    → ((i j : ℕ)
        → i < left
        → j < digits
        → get_elem? out (digits * i + j) ≡ some (f (row + 1 + i) j))
    → (i j : ℕ) → i < suc left
    → j < digits
    → get_elem? (cols ++ out) (digits * i + j) ≡ some (f (row + i) j)
listed-append f row left cols out len first rest zero j p q =
    ap (get_elem? (cols ++ out)) (omega arith)
    ∙ get_elem?-append_left cols out j (omega arith)
    ∙ first j q
    ∙ ap₂ (λ r c. some (f r c)) (omega arith) (omega arith)
listed-append f row left cols out len first rest (suc i) j p q =
    ap (get_elem? (cols ++ out)) (omega arith)
    ∙ get_elem?-append_right cols out (digits * i + j)
    ∙ rest i j (omega arith) q
    ∙ ap (λ r. some (f r j)) (omega arith)

-- Reading the rows back, one behind the other.
read_rows-Shows :
    (left row : ℕ) (grid : Board) {f : Chars}
    → Shows f grid
    → row + left ≤ digits
    → (out : List ℕ) × (read_rows left row grid ≡ done (out, grid))
      × (length out ≡ digits * left)
      × ((i j : ℕ) → i < left → j < digits → get_elem? out (digits * i + j) ≡ some (f (row + i) j))
unfolding read_rows
read_rows-Shows zero row grid h p = ([], refl, omega arith, λ i j lt. absurd (omega arith))
read_rows-Shows (suc left) row grid {f} h p =
    let (cols, returns, len, chars) =
      read_cols-Shows row digits 0 grid h (omega arith) (omega arith) in
    let (out, rest, len', chars') = read_rows-Shows left (row + 1) grid h (omega arith) in
    (
      cols ++ out,
      rw (returns, rest),
      omega (arith, length-append cols out),
      listed-append f row left cols out len chars chars',
    )

-- Reading the whole board: 81 characters, row by row.
pub read_board-Shows :
    (grid : Board) {f : Chars}
    → Shows f grid
    → (out : List ℕ) × (read_rows digits 0 grid ≡ done (out, grid))
      × (length out ≡ digits * digits)
      × ((i j : ℕ) → i < digits → j < digits → get_elem? out (digits * i + j) ≡ some (f i j))
read_board-Shows grid {f} h =
    let (out, returns, size, chars) = read_rows-Shows digits 0 grid h (omega arith) in
    (out, returns, size, λ i j p q. chars i j p q ∙ ap (λ r. some (f r j)) (omega arith))
