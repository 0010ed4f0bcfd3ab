-- ===== src/Board/Writes.antt =====
-- The board as the script sees it: a sequence of calls of `sudoku_board_set_val` on a new board.
use gtksudoku.Prelude.{ℕ, ◌<◌, ◌≡◌, refl, sym, Bool, false, ◌&&◌, ◌⊎◌, inl, inr, arith}
use gtksudoku.Prelude.{
  some, List, [], ◌∷◌, ltb, if◌then◌else◌, Bool-cases, ℤ, pos, negsuc, ◌==ℤ◌, ==ℤ→≡,
}
use gtksudoku.Prelude.{Outcome, done, ◌>>=◌}
use gtksudoku.Constants.{digits, all}
use gtksudoku.Cell
use gtksudoku.Board
use gtksudoku.Board.{Board, warn}
use gtksudoku.Board.Laws.{
  IsBoard, value_at, Outside, new-IsBoard, new-cell_at, set_val_inside, outside_lem,
}

-- The arguments of a call: a row, a column, a value and a mode, any four integers.
abbrev pub Write : Type 0
Write = ℤ × ℤ × ℤ × ℤ

unfoldable pub set_vals : (ℕ → ℕ → Bool) → Board → List Write → Outcome Board
set_vals window board [] = done board
set_vals window board ((row, col, val, mode) ∷ writes) = do
  board' ← Board.set_val window board row col val mode
  set_vals window board' writes

-- What the places should hold: a write replaces what the place holds that it names, if there is one.
unfoldable pub written : (ℕ → ℕ → ℕ) → List Write → ℕ → ℕ → ℕ
written f [] = f
written f ((row, col, val, mode) ∷ writes) =
    written (λ i j. if (pos i ==ℤ row) && (pos j ==ℤ col) then Cell.and_all val else f i j) writes

-- The places of a well-formed board hold these sets.
record Has (e : Bool) (f : ℕ → ℕ → ℕ) (b : Board) : Type 0 where
  formed : IsBoard e b.rows
  values : (i j : ℕ) → i < digits → j < digits → value_at b.rows i j ≡ some (f i j)

place-cases : (i : ℤ) → ((n : ℕ) × (n < digits) × (i ≡ pos n)) ⊎ Outside i
place-cases (pos n) = elim (Bool-cases (ltb n digits)) [
  | inl e ↦ inl (n, ground arith, refl)
  | inr e ↦ inr (λ k lt same. ground arith)
]
place-cases (negsuc n) = inr (λ k lt same. cc)

Outside-misses : (i : ℤ) (n : ℕ) → Outside i → n < digits → (pos n ==ℤ i) ≡ false
Outside-misses i n h lt = elim (Bool-cases (pos n ==ℤ i)) [
  | inl e ↦ absurd (h n lt (sym (==ℤ→≡ (pos n) i e)))
  | inr e ↦ e
]

module _ (window : ℕ → ℕ → Bool) (e : Bool) where
  -- One write, wherever it goes.
  write-Has :
      (b : Board) (f : ℕ → ℕ → ℕ) (row col v m : ℤ)
      → Has e f b
      → (b' : Board) × (Board.set_val window b row col v m ≡ done b')
        × Has e (λ i j. if (pos i ==ℤ row) && (pos j ==ℤ col) then Cell.and_all v else f i j) b'
  unfolding warn
  write-Has b f row col v m h = elim (place-cases row) [
    | inr out ↦ (
      warn b,
      (outside_lem window b row col v m (inl out)).1,
      record {
        formed = h.formed;
        values = λ i j p q. rw (Outside-misses row i out p) (h.values i j p q);
      },
    )
    | inl (r, p, row_eq) ↦ elim (place-cases col) [
      | inr out ↦ (
        warn b,
        (outside_lem window b row col v m (inr out)).1,
        record {
          formed = h.formed;
          values = λ i j s t. ground (arith, Outside-misses col j out t, h.values i j s t);
        },
      )
      | inl (c, q, col_eq) ↦
          let (b', returns, formed, values) = set_val_inside window e b r c v m h.formed p q in
          (
            b',
            rw (row_eq, col_eq, returns),
            record {
              formed = formed;
              values =
                  λ i j s t. rw (row_eq, col_eq) (ground (arith, values i j, h.values i j s t));
            },
          )
    ]
  ]

  set_vals-Has :
      (b : Board) (f : ℕ → ℕ → ℕ) (writes : List Write)
      → Has e f b
      → (b' : Board) × (set_vals window b writes ≡ done b') × Has e (written f writes) b'
  unfolding set_vals written
  set_vals-Has b f [] h = (b, refl, h)
  set_vals-Has b f ((row, col, v, m) ∷ writes) h =
      let (b1, first, h1) = write-Has b f row col v m h in
      let (b2, rest, h2) = set_vals-Has b1 _ writes h1 in (b2, rw (first, rest), h2)

  new-Has : Has e (λ i j. all) (Board.new e)
  unfolding Cell.new
  new-Has = record {
    formed = new-IsBoard e;
    values = λ i j p q. rw (new-cell_at e i j p q, value_at);
  }

  -- Whatever integers a sequence of writes to a new board names, the calls never fault and leave a
  -- well-formed board: each place holds the lowest nine bits of the last value written to it, and
  -- all digits if there is none; writes outside of the table change nothing.
  pub set_vals-written :
      (writes : List Write)
      → (b : Board) × (set_vals window (Board.new e) writes ≡ done b)
        × IsBoard e b.rows
        × ((i j : ℕ)
            → i < digits
            → j < digits
            → value_at b.rows i j ≡ some (written (λ _ _. all) writes i j))
  set_vals-written writes =
      let (b, returns, h) = set_vals-Has (Board.new e) (λ i j. all) writes new-Has in
      (b, returns, h.formed, h.values)
