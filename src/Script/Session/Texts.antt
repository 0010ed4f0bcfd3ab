-- ===== src/Script/Session/Texts.antt =====
-- The text of a board that keeps a solution: it is read again, and fits the solution.
use gtksudoku.Prelude.{ℕ, suc, ◌+◌, ◌-◌, ◌≡◌, refl, ap, ◌∙◌, true, ◌&&◌, arith, some}
use gtksudoku.Prelude.{List, [], ◌∷◌, ◌++◌, map, ◌==◌, length, length-append, Bool-cases, inl, inr}
use gtksudoku.Prelude.{count_if, if◌then◌else◌, Bool, sym}
use gtksudoku.Script.Board.{same}
use gtksudoku.Script.Cell.{unknowns_from}
use gtksudoku.Script.Solution.{has, same→≡}
use gtksudoku.Script.Load.Places.{char_at, char_at-append, has-append}
use gtksudoku.Script.Cell.{unknowns, first}
use gtksudoku.Script.Board.{Place, Board, pairs, row}
use gtksudoku.Script.Board.Determine.{digit-range}
use gtksudoku.Script.Board.Entries.{first_from-only, mark→entry}
use gtksudoku.Script.Board.Houses.{row-InTable}
use gtksudoku.Script.Solution.{InTable, InSides, Keeps, All, is_solution}
use gtksudoku.Script.Load.{digits2, is_item, strip_string, digit_translator, flatten, table}
use gtksudoku.Script.Load.Laws.{fits, fits_item, InRows, pairs-InRows}
use gtksudoku.Script.Session.{show_cell, show_cells, show_rows, show}

strip_string-append : (s t : List ℕ) → strip_string (s ++ t) ≡ strip_string s ++ strip_string t
unfolding strip_string
strip_string-append [] t = refl
strip_string-append (c ∷ s) t = elim (Bool-cases (is_item c)) [
  | inl e ↦ rw (strip_string, e) (ap (λ x. c ∷ x) (strip_string-append s t))
  | inr e ↦ rw (strip_string, e) (strip_string-append s t)
]

fits-append :
    (sol : Place → ℕ) (ps qs : List Place) (s t : List ℕ)
    → length s ≡ length ps
    → fits sol ps s ≡ true
    → fits sol qs t ≡ true
    → fits sol (ps ++ qs) (s ++ t) ≡ true
unfolding fits
fits-append sol [] qs [] t e h k = k
fits-append sol [] qs (c ∷ s) t e h k = absurd (omega (arith, e))
fits-append sol (p ∷ ps) qs [] t e h k = absurd (omega (arith, e))
fits-append sol (p ∷ ps) qs (c ∷ s) t e h k =
    let rest = fits-append sol ps qs s t (omega (arith, e)) (ground (arith, h)) k in
    ground (arith, h, rest)

module _ (sol : Place → ℕ) (solved : is_solution sol ≡ true) (b : Board) (keeps : Keeps sol b) where
  -- What a cell shows: a dot, or the digit of the solution.
  show_cell_lem :
      (p : Place)
      → InTable p
      → (c : ℕ) × (show_cell (b p) ≡ some c)
        × (is_item c ≡ true)
        × (fits_item (digit_translator c) (sol p) ≡ true)
  unfolding show_cell is_item digit_translator unknowns first
  show_cell_lem p inside = elim (Bool-cases ((b p).determined && unknowns (b p) == 1)) [
    | inr dot ↦ (46, rw (show_cell, dot) refl, refl, refl)
    | inl digit ↦
        let (low, high) = digit-range sol solved p inside in
        let found : first (b p) ≡ some (1 + (sol p - 1)) =
          first_from-only (b p).marks 1 (sol p - 1) (mark→entry (b p) (sol p) (keeps p inside))
            (ground (arith, digit)) in
        let here : 1 + (sol p - 1) ≡ sol p = omega (arith, low) in
        (
          48 + sol p,
          rw (show_cell, digit, found, here) refl,
          ground (arith, low, high),
          ground (arith, low, high),
        )
  ]

  unknowns_from-count_if : (ms : List Bool) → unknowns_from ms ≡ count_if (λ m. m) ms
  unfolding unknowns_from
  unknowns_from-count_if [] = refl
  unknowns_from-count_if (m ∷ ms) = ap (λ n. (if m then 1 else 0) + n) (unknowns_from-count_if ms)

  -- A cell that is determined, and has one digit left, shows the digit of the solution.
  pub show_cell-digit :
      (p : Place)
      → InTable p
      → (b p).determined ≡ true
      → count_if (λ m. m) (b p).marks ≡ 1
      → show_cell (b p) ≡ some (48 + sol p)
  unfolding show_cell unknowns first
  show_cell-digit p inside determined one =
      let (low, high) = digit-range sol solved p inside in
      let single : unknowns_from (b p).marks ≡ 1 = unknowns_from-count_if (b p).marks ∙ one in
      let found : first (b p) ≡ some (1 + (sol p - 1)) =
        first_from-only (b p).marks 1 (sol p - 1) (mark→entry (b p) (sol p) (keeps p inside))
          (omega (arith, single)) in
      let here : 1 + (sol p - 1) ≡ sol p = omega (arith, low) in
      rw (show_cell, determined, single, found, here) refl

  -- The text of places, which is read as it is.
  -- At each place it has what its cell shows.
  abbrev Placed : List Place → List ℕ → Type 0
  Placed ps s = (p : Place) → has p ps ≡ true → char_at p ps s ≡ show_cell (b p)

  abbrev Shown : List Place → List ℕ → Type 0
  Shown ps s = (strip_string s ≡ s) × (length s ≡ length ps) × (fits sol ps s ≡ true) × Placed ps s

  pub show_cells_lem :
      (ps : List Place) → All InTable ps → (s : List ℕ) × (show_cells ps b ≡ some s) × Shown ps s
  unfolding show_cells strip_string fits char_at
  show_cells_lem [] inside = ([], refl, (refl, refl, refl, λ p member. cc))
  show_cells_lem (p ∷ ps) (here, inside) =
      let (c, shown, item, fit) = show_cell_lem p here in
      let (s, rest, (strip, long, all_fit, placed)) = show_cells_lem ps inside in
      (
        c ∷ s,
        rw (show_cells, shown, rest) refl,
        (
          rw (strip_string, item) (ap (λ x. c ∷ x) strip),
          ap suc long,
          ground (arith, fit, all_fit),
          λ q member. elim (Bool-cases (same q p)) [
            | inl here ↦ rw here (sym shown ∙ ap (λ x. show_cell (b x)) (sym (same→≡ q p here)))
            | inr there ↦ rw there (placed q (ground (arith, member, there)))
          ],
        ),
      )

  abbrev rows : List (ℕ × ℕ) → List Place
  rows ks = flatten (map (λ (k : ℕ × ℕ). row (k.0, 1, k.1, 1)) ks)

  show_rows_lem :
      (ks : List (ℕ × ℕ))
      → InRows ks
      → (u : List ℕ) × (show_rows ks b ≡ some u)
        × (length (strip_string u) ≡ length (rows ks))
        × (fits sol (rows ks) (strip_string u) ≡ true)
        × Placed (rows ks) (strip_string u)
  unfolding show_rows flatten strip_string is_item fits InRows
  show_rows_lem [] h = ([], refl, refl, refl, λ p member. cc)
  show_rows_lem (k ∷ ks) ((i, j), h) =
      let one : InSides 1 = (omega arith, omega arith) in
      let line = row (k.0, 1, k.1, 1) in
      let (s, shown, (strip, long, fit, placed)) =
        show_cells_lem line (row-InTable (k.0, 1, k.1, 1) (i, one, j, one)) in
      let (u, rest, long', fit', placed') = show_rows_lem ks h in
      let stripped : strip_string (s ++ 10 ∷ u) ≡ s ++ strip_string u =
        strip_string-append s (10 ∷ u) ∙ ap (λ x. x ++ strip_string u) strip in
      (
        s ++ 10 ∷ u,
        rw (show_rows, shown, rest) refl,
        rw stripped (
            omega
              (arith, length-append s (strip_string u), length-append line (rows ks), long, long')),
        rw stripped (fits-append sol line (rows ks) s (strip_string u) long fit fit'),
        λ p member. rw stripped (
            char_at-append p line (rows ks) s (strip_string u) long
            ∙ elim (Bool-cases (has p line)) [
              | inl here ↦ rw here (placed p here)
              | inr there ↦ rw there (placed' p (sym (has-append p line (rows ks) there) ∙ member))
            ]),
      )

  -- The text of the whole board.
  pub show_lem :
      (u : List ℕ) × (show b ≡ some u)
      × (length (strip_string u) ≡ digits2)
      × (fits sol table (strip_string u) ≡ true)
      × Placed table (strip_string u)
  unfolding show table
  show_lem = show_rows_lem pairs pairs-InRows
