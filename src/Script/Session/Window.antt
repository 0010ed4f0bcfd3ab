-- ===== src/Script/Session/Window.antt =====
-- What the window shows after the script has printed a board.
use gtksudoku.Prelude.{
  sym, ◌/◌, ◌%◌, ◌+◌, ℕ, ◌<◌, ◌≡◌, refl, ap, ◌∙◌, Bool, true, false, ◌&&◌, arith, some,
}
use gtksudoku.Prelude.{
  List, [], ◌∷◌, ◌++◌, map, ◌==◌, ==_refl, if◌then◌else◌, Bool-cases, inl, inr, pos,
}
use gtksudoku.Constants.{digits, all}
use gtksudoku.Cell.{and_all}
use gtksudoku.Board
use gtksudoku.Interp.Callbacks
use gtksudoku.Interp.Callbacks.{Frame}
use gtksudoku.Prelude.{Option, none, Outcome, done, ◌>>=◌, >>=-eq-done}
use gtksudoku.Board.{Board}
use gtksudoku.Board.Laws.{value_at}
use gtksudoku.Board.Writes.{Write, set_vals, written, set_vals-written}
use gtksudoku.Script.Cell.{print_item}
use gtksudoku.Script.Board as ScriptBoard
use gtksudoku.Script.Board.{Place, same, pairs}
use gtksudoku.Script.Solution.{InTable, InSides, All, has, for_places_lem, same→≡}
use gtksudoku.Script.Load.{flatten}
use gtksudoku.Script.Load.Laws.{InRows, All-append, pairs-InRows}
use gtksudoku.Script.Board.Houses.{square-InTable}
use gtksudoku.Script.Session.{SetVal, zero_based_index, print_place, squares, print_all}

-- A call of `set_val` as src/interp.c hands it to the window.
abbrev pub write_of : SetVal → Write
write_of w = (pos w.row, pos w.col, w.val, if w.mode then pos 1 else pos 0)

written-append :
    (ws vs : List Write) (f : ℕ → ℕ → ℕ) → written f (ws ++ vs) ≡ written (written f ws) vs
unfolding written
written-append [] vs f = refl
written-append (w ∷ ws) vs f = written-append ws vs _

abbrev pub row_of : Place → ℕ
row_of (r1, c1, r2, c2) = zero_based_index r1 r2

abbrev pub col_of : Place → ℕ
col_of (r1, c1, r2, c2) = zero_based_index c1 c2

-- Places with the same indices are the same.
index_injective :
    (a b c d : ℕ)
    → InSides a
    → InSides b
    → InSides c
    → InSides d
    → zero_based_index a b ≡ zero_based_index c d
    → (a ≡ c) × (b ≡ d)
index_injective a b c d (i, i') (j, j') (k, k') (l, l') e =
    (omega (arith, i, i', j, j', k, k', l, l', e), omega (arith, i, i', j, j', k, k', l, l', e))

indices_lem : (p : Place) → InTable p → (row_of p < digits) × (col_of p < digits)
indices_lem (r1, c1, r2, c2) ((i, i'), (j, j'), (k, k'), (l, l')) =
    (omega (arith, i, i', k, k'), omega (arith, j, j', l, l'))

-- Whether a write to one place is to another.
abbrev hits : Place → Place → Bool
hits p q = (row_of p == row_of q) && (col_of p == col_of q)

hits→≡ : (p q : Place) → InTable p → InTable q → hits p q ≡ true → same p q ≡ true
unfolding same
hits→≡ (r1, c1, r2, c2) (s1, d1, s2, d2) (i, j, k, l) (i', j', k', l') h =
    let (e, f) = index_injective r1 r2 s1 s2 i k i' k' (ground (arith, h)) in
    let (g, m) = index_injective c1 c2 d1 d2 j l j' l' (ground (arith, h)) in
    ground (arith, e, f, g, m)

module _ (details : Bool) (b : ScriptBoard.Board) where
  abbrev set_at : Place → ℕ
  set_at p = and_all (print_item details (b p)).0

  abbrev writes_at : List Place → List Write
  writes_at ps = map (λ q. write_of (print_place details b q)) ps

  abbrev over : (ℕ → ℕ → ℕ) → Place → ℕ → ℕ → ℕ
  over f q i j = if i == row_of q && j == col_of q then set_at q else f i j

  over-hit :
      (f : ℕ → ℕ → ℕ) (p q : Place) → same p q ≡ true → over f q (row_of p) (col_of p) ≡ set_at p
  over-hit f p q e = rw (← same→≡ p q e) (ground (arith, ==_refl (row_of p), ==_refl (col_of p)))

  over-miss :
      (f : ℕ → ℕ → ℕ) (p q : Place)
      → InTable p
      → InTable q
      → same p q ≡ false
      → over f q (row_of p) (col_of p) ≡ f (row_of p) (col_of p)
  over-miss f p q here there e = elim (Bool-cases (hits p q)) [
    | inl hit ↦ absurd (cc (e, hits→≡ p q here there hit))
    | inr miss ↦ rw miss refl
  ]

  -- After the writes for a list of places, those in the list hold their sets, and the other ones what
  -- they held.
  written_place :
      (p : Place) (ps : List Place) (f : ℕ → ℕ → ℕ)
      → InTable p
      → All InTable ps
      → written f (writes_at ps) (row_of p) (col_of p)
        ≡ (if has p ps then set_at p else f (row_of p) (col_of p))
  unfolding written print_place
  written_place p [] f here inside = refl
  written_place p (q ∷ qs) f here (there, inside) =
      written_place p qs (over f q) here inside ∙ elim (Bool-cases (same p q)) [
        | inl e ↦ rw (over-hit f p q e, e) (ground arith)
        | inr e ↦ rw (over-miss f p q here there e, e) refl
      ]

  writes_lem : (ps : List Place) → map write_of (map (print_place details b) ps) ≡ writes_at ps
  writes_lem [] = refl
  writes_lem (p ∷ ps) = ap (λ ws. write_of (print_place details b p) ∷ ws) (writes_lem ps)

squares_from :
    (ks : List (ℕ × ℕ))
    → InRows ks
    → All InTable
        (flatten (map (λ (k : ℕ × ℕ). map (λ (l : ℕ × ℕ). (k.0, k.1, l.0, l.1)) pairs) ks))
unfolding flatten InRows ScriptBoard.square
squares_from [] h = tt
squares_from (k ∷ ks) ((a, b), h) =
    let one : InSides 1 = (omega arith, omega arith) in
    All-append (ScriptBoard.square (k.0, k.1, 1, 1)) _
      (square-InTable (k.0, k.1, 1, 1) (a, b, one, one)) (squares_from ks h)

squares-InTable : All InTable squares
unfolding squares
squares-InTable = squares_from pairs pairs-InRows

has-squares : (p : Place) → InTable p → has p squares ≡ true
unfolding squares flatten same
has-squares p inside = for_places_lem (λ p. has p squares) p refl inside

-- What the library answers in `set_val` of src/interp.c for a call of the script.
abbrev frame_of : SetVal → Frame
frame_of w = record {
  checkint = λ i.
      if i == 1
      then some (pos w.row)
      else (if i == 2 then some (pos w.col) else (if i == 3 then some w.val else none));
  toboolean = λ i. i == 4 && w.mode;
  tostring = λ i. none;
}

-- The calls of the script, in their order, up to one that ends with an error.
unfoldable pub call_all : (ℕ → ℕ → Bool) → Board → List SetVal → Outcome (Option Board)
unfolding Callbacks.set_val
call_all window board [] = done (some board)
call_all window board (w ∷ ws) = do
  answer ← Callbacks.set_val window (frame_of w) board
  elim answer [ none ↦ done none | some board' ↦ call_all window board' ws ]

call_all-set_vals :
    (window : ℕ → ℕ → Bool) (ws : List SetVal) (b b' : Board)
    → set_vals window b (map write_of ws) ≡ done b'
    → call_all window b ws ≡ done (some b')
unfolding set_vals call_all Callbacks.set_val Callbacks.interp_set_val
call_all-set_vals window [] b b' e = ap (λ o. o >>= (λ b. done (some b))) e
call_all-set_vals window (w ∷ ws) b b' e =
    let (b1, first, rest) =
      >>=-eq-done
        (Board.set_val window b (pos w.row) (pos w.col) w.val (if w.mode then pos 1 else pos 0))
        (λ b1. set_vals window b1 (map write_of ws)) e in
    rw first (call_all-set_vals window ws b1 b' rest)

set_vals-append :
    (window : ℕ → ℕ → Bool) (ws vs : List Write) (b b' : Board)
    → set_vals window b (ws ++ vs) ≡ done b'
    → (b1 : Board) × (set_vals window b ws ≡ done b1) × (set_vals window b1 vs ≡ done b')
unfolding set_vals
set_vals-append window [] vs b b' e = (b, refl, e)
set_vals-append window ((row, col, val, mode) ∷ ws) vs b b' e =
    let (b1, first, rest) =
      >>=-eq-done (Board.set_val window b row col val mode) (λ b1. set_vals window b1 (ws ++ vs))
        e in
    let (b2, front, back) = set_vals-append window ws vs b1 b' rest in
    (b2, ap (λ o. o >>= (λ b1. set_vals window b1 ws)) first ∙ front, back)

-- The place of the table whose cell stands in a row and a column of the window, from 0.
abbrev pub place_of : ℕ → ℕ → Place
place_of i j = (i / 3 + 1, j / 3 + 1, i % 3 + 1, j % 3 + 1)

place_of-InTable : (i j : ℕ) → i < digits → j < digits → InTable (place_of i j)
place_of-InTable i j h k = (
  (omega arith, omega (arith, h)),
  (omega arith, omega (arith, k)),
  (omega arith, omega (arith, h)),
  (omega arith, omega (arith, k)),
)

place_of-index : (i : ℕ) → zero_based_index (i / 3 + 1) (i % 3 + 1) ≡ i
place_of-index i = omega arith

-- What the writes of `print_all`, behind others, leave at a place.
shown_at :
    (before : List Write) (details : Bool) (b : ScriptBoard.Board) (p : Place)
    → InTable p
    → written (λ i j. all) (before ++ writes_at details b squares) (row_of p) (col_of p)
      ≡ set_at details b p
shown_at before details b p inside =
    let calls = writes_at details b squares in
    ap (λ (f : ℕ → ℕ → ℕ). f (row_of p) (col_of p)) (written-append before calls (λ i j. all))
    ∙ (written_place details b p squares (written (λ i j. all) before) inside squares-InTable
        ∙ ap
            (λ h.
              if h then set_at details b p else written (λ i j. all) before (row_of p) (col_of p))
            (has-squares p inside))

-- Whatever was written to the window before: the calls by which the script prints a board go
-- through, and leave each cell of the window with the lowest nine bits of the value that
-- `print_item` makes of the cell of the board that stands in the same row and column, which are
-- counted from 0 in the window, and by square and within a square from 1 on the board.
pub print_all-shows :
    (window : ℕ → ℕ → Bool) (e : Bool) (before : List Write) (details : Bool)
    (b : ScriptBoard.Board)
    → (w w' : Board) × (set_vals window (Board.new e) before ≡ done w)
      × (call_all window w (print_all details b) ≡ done (some w'))
      × ((i j : ℕ)
          → i < digits
          → j < digits
          → value_at w'.rows i j ≡ some (and_all (print_item details (b (place_of i j))).0))
unfolding print_all
print_all-shows window e before details b =
    let calls = writes_at details b squares in
    let (w', returns, formed, values) = set_vals-written window e (before ++ calls) in
    let (w, first, second) = set_vals-append window before calls (Board.new e) w' returns in
    (
      w,
      w',
      first,
      call_all-set_vals window (print_all details b) w w'
          (ap (λ vs. set_vals window w vs) (writes_lem details b squares) ∙ second),
      λ i j low right.
          let p = place_of i j in
          let inside = place_of-InTable i j low right in
          let at : written (λ i j. all) (before ++ calls) (row_of p) (col_of p)
              ≡ written (λ i j. all) (before ++ calls) i j =
            ap (λ k. written (λ i j. all) (before ++ calls) k (col_of p)) (place_of-index i)
            ∙ ap (λ k. written (λ i j. all) (before ++ calls) i k) (place_of-index j) in
          values i j low right ∙ ap some (sym at ∙ shown_at before details b p inside),
    )
