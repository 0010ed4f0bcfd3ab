-- ===== src/Script/Load/Hints.antt =====
-- What stands where in the text of a puzzle, and what is left on the board that is read from it.
use mathlib.Core.Path.{subst}
use mathlib.Core.Option.{some-injective}
use gtksudoku.Prelude.{ℕ, suc, ◌+◌, ◌≤◌, ◌≡◌, ◌≢◌, ◌⊎◌, refl, sym, ap, ◌∙◌, Bool, true, arith, some}
use gtksudoku.Prelude.{
  List, [], ◌∷◌, ◌==◌, ==→≡, length, get_or, Bool-cases, Option-cases, inl, inr,
}
use gtksudoku.Script.Cell.{singleton}
use gtksudoku.Script.Board.{
  Place, Board, mk_board, mark, same, put, determine, Result, ok, raised, out_of_fuel,
}
use gtksudoku.Script.Board.Clean.{OnOk, OnOk-weaken, OnOk-then_with, Step}
use gtksudoku.Script.Board.Clean.Determined.{determine-Step, singleton-only}
use gtksudoku.Script.Board.Determine.{Good, digit-range}
use gtksudoku.Script.Load
use gtksudoku.Script.Load.{digits2, is_item, digit_translator, strip_string, flatten, table, fill}
use gtksudoku.Script.Load.Laws.{fits, fits_item, table-InTable, board-Good}
use gtksudoku.Script.Load.Clean.{fill-Step}
use gtksudoku.Script.Solution.{InTable, Keeps, All, same→≡, is_solution}
use gtksudoku.Script.Load.Places.{
  cells_of, number_of, char_of, cells_of-strip_string, char_at, numbered, table-numbered, and_split,
  char_at-table,
}

-- Only one digit is left at a place.
abbrev pub Only : Place → ℕ → Board → Type 0
Only p d b = (k : ℕ) → mark (b p) k ≡ true → k ≡ d

fill-met :
    (p : Place) (c d : ℕ) (qs : List Place) (cs : List ℕ) (b : Board)
    → digit_translator c ≡ some d
    → OnOk (Only p d) (fill (p ∷ qs) (c ∷ cs) b)
unfolding fill
fill-met p c d qs cs b digit =
    let b1 = put b p (singleton d (b p)).0 in
    rw (fill, digit)
      (OnOk-then_with (Step b1) (Only p d) (determine (digits2 + 1) p d b1) (λ b2 e. fill qs cs b2)
        (determine-Step (digits2 + 1) p d b1)
        (λ b2 e step.
          OnOk-weaken (Step b2) (Only p d) (fill qs cs b2)
            (λ b3 step' k left. singleton-only b p d k (step.0 p k (step'.0 p k left)))
            (fill-Step qs cs b2)))

-- A digit that is met at a place is the only one left there.
fill-Only :
    (p : Place) (c d : ℕ) (ps : List Place) (cs : List ℕ) (b : Board)
    → digit_translator c ≡ some d
    → char_at p ps cs ≡ some c
    → OnOk (Only p d) (fill ps cs b)
unfolding fill char_at
fill-Only p c d [] cs b digit met = absurd cc
fill-Only p c d (q ∷ qs) [] b digit met = absurd cc
fill-Only p c d (q ∷ qs) (c' ∷ cs) b digit met = elim (Bool-cases (same p q)) [
  | inl here ↦
      let at : c' ≡ c = some-injective c' c (sym (rw here refl) ∙ met) in
      subst (λ q. OnOk (Only p d) (fill (q ∷ qs) (c' ∷ cs) b)) (same→≡ p q here)
        (subst (λ c. OnOk (Only p d) (fill (p ∷ qs) (c ∷ cs) b)) (sym at)
          (fill-met p c d qs cs b digit))
  | inr there ↦
      let behind : char_at p qs cs ≡ some c = rw there at met in
      elim (Option-cases (digit_translator c')) [
        | inl e ↦ rw (fill, e) (fill-Only p c d qs cs b digit behind)
        | inr (d', e) ↦
            let b1 = put b q (singleton d' (b q)).0 in
            rw (fill, e)
              (OnOk-then_with (Step b1) (Only p d) (determine (digits2 + 1) q d' b1)
                (λ b2 e. fill qs cs b2) (determine-Step (digits2 + 1) q d' b1)
                (λ b2 e step. fill-Only p c d qs cs b2 digit behind))
      ]
]

-- A digit that the loops meet.
pub met-Only :
    (s : List ℕ) (p : Place) (d : ℕ)
    → length (strip_string s) ≡ digits2
    → (1 ≤ d) × (d ≤ 9)
    → char_at p table (strip_string s) ≡ some (48 + d)
    → OnOk (Only p d) (Load.board s)
unfolding Load.board digit_translator
met-Only s p d full (low, high) met =
    let digit : digit_translator (48 + d) ≡ some d = ground (arith, low, high) in
    rw (Load.board, full) (fill-Only p (48 + d) d table (strip_string s) mk_board digit met)

board-Only :
    (s : List ℕ) (p : Place) (d : ℕ)
    → InTable p
    → length (cells_of s) ≡ 81
    → char_of s p ≡ 48 + d
    → (1 ≤ d) × (d ≤ 9)
    → OnOk (Only p d) (Load.board s)
board-Only s p d inside long char range =
    met-Only s p d (ap length (cells_of-strip_string s) ∙ long) range
      (char_at-table p s inside long ∙ ap some char)

module _ (sol : Place → ℕ) (solved : is_solution sol ≡ true) where
  -- A text of 81 cells, each of which is a dot or the digit of the solution at its place.
  abbrev pub Hints : List ℕ → Type 0
  Hints s =
      (length (cells_of s) ≡ 81)
      × ((p : Place) → InTable p → (char_of s p ≡ b'.') ⊎ (char_of s p ≡ 48 + sol p))

  item-fits :
      (p : Place) (c : ℕ)
      → InTable p
      → (c ≡ b'.') ⊎ (c ≡ 48 + sol p)
      → fits_item (digit_translator c) (sol p) ≡ true
  unfolding digit_translator
  item-fits p c inside (inl e) = rw e refl
  item-fits p c inside (inr e) =
      let (low, high) = digit-range sol solved p inside in rw e (ground (arith, low, high))

  fits-numbered :
      (s : List ℕ) (k : ℕ) (ps : List Place) (cs : List ℕ)
      → Hints s
      → All InTable ps
      → numbered k ps ≡ true
      → ((n : ℕ) → get_or cs n b'.' ≡ get_or (cells_of s) (k + n) b'.')
      → fits sol ps cs ≡ true
  unfolding fits numbered
  fits-numbered s k [] cs hints inside h same_text = refl
  fits-numbered s k (p ∷ ps) [] hints inside h same_text = refl
  fits-numbered s k (p ∷ ps) (c ∷ cs) hints (here, inside) h same_text =
      let (first, behind) = and_split (number_of p == k) (numbered (k + 1) ps) h in
      let at : number_of p ≡ k + 0 = omega (arith, ==→≡ (number_of p) k first) in
      let char : c ≡ char_of s p = same_text 0 ∙ ap (λ n. get_or (cells_of s) n b'.') (sym at) in
      let item : fits_item (digit_translator c) (sol p) ≡ true =
        rw char (item-fits p (char_of s p) here (hints.1 p here)) in
      let rest =
        fits-numbered s (k + 1) ps cs hints inside behind
          (λ n. same_text (suc n) ∙ ap (λ n. get_or (cells_of s) n b'.') (omega arith)) in
      rw (item, rest) refl

  Hints-fits :
      (s : List ℕ)
      → Hints s
      → (length (strip_string s) ≡ digits2) × (fits sol table (strip_string s) ≡ true)
  Hints-fits s hints =
      let e = cells_of-strip_string s in
      (
        ap length e ∙ hints.0,
        ap (fits sol table) e
            ∙ fits-numbered s 0 table (cells_of s) hints table-InTable table-numbered
                (λ n. ap (λ n. get_or (cells_of s) n b'.') (omega arith)),
      )

  pub Good-ok :
      (n : ℕ) (r : Result) → Good sol n r → (b : Board) × (e : Bool) × (r ≡ ok b e) × Keeps sol b
  Good-ok n (ok b e) (keeps, few) = (b, e, refl, keeps)
  Good-ok n (raised w b) good = absurd good
  Good-ok n out_of_fuel good = absurd good

  -- If a text has 81 dots and digits from 1 to 9, the rows of the table one after another, and each
  -- digit is that of a solution of the puzzle at its place, then the text is read without an error.
  -- On the board that is made the digits of the solution are left, and at a place with a digit in
  -- the text no other one.
  pub board-Hints :
      (s : List ℕ)
      → Hints s
      → (b : Board) × (e : Bool) × (Load.board s ≡ ok b e)
        × Keeps sol b
        × ((p : Place) → InTable p → char_of s p ≢ b'.' → Only p (sol p) b)
  board-Hints s hints =
      let (long, fit) = Hints-fits s hints in
      let (b, e, read, keeps) = Good-ok digits2 (Load.board s) (board-Good sol solved s long fit) in
      (
        b,
        e,
        read,
        keeps,
        λ p inside met. elim (hints.1 p inside) [
          | inl dot ↦ absurd (met dot)
          | inr char ↦
              subst (OnOk (Only p (sol p))) read
                (board-Only s p (sol p) inside hints.0 char (digit-range sol solved p inside))
        ],
      )
