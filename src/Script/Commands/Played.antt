-- ===== src/Script/Commands/Played.antt =====
-- The boards that a game reaches by the rules, and what they show.
use mathlib.Core.Option.{some-injective}
use mathlib.Core.Path.{subst}
use gtksudoku.Prelude.{
  ℕ, suc, ◌+◌, ◌-◌, ◌<◌, ◌≡◌, ◌≢◌, refl, sym, ap, ◌∙◌, Bool, true, false, ◌&&◌, arith, Option, none,
  some,
}
use gtksudoku.Prelude.{List, [], ◌∷◌, ◌==◌, get_or, Bool-cases, Option-cases, inl, inr}
use gtksudoku.Script.Cell.{Cell, unknowns, first, first_from}
use gtksudoku.Script.Board.{Place, Board, mk_board, mark, Result, ok}
use gtksudoku.Script.Board.Clean.{OnOk, Step, Step-Clean, Stepping, Clean, peers}
use gtksudoku.Script.Board.Entries.{entry→mark}
use gtksudoku.Script.Load
use gtksudoku.Script.Load.Clean.{mk_board-Clean, board-Clean}
use gtksudoku.Script.Pairs.Laws.{InDigits}
use gtksudoku.Script.Session.{show_cell}
use gtksudoku.Script.Commands.{Command, rule_of, nargs}
use gtksudoku.Script.Commands.Facts.{Held, rule_of-Held, Stepping-Facts}

-- The boards of a game: one that `load` or `edit` reads, the board that `new` makes, and what the
-- rule of a command leaves of such a board, if it ends without an error. The commands `back` and
-- `swap` only go between boards.
pub data Played : Board → Type 0 where
  new_board : Played mk_board
  read : (s : List ℕ) {b : Board} {e : Bool} → Load.board s ≡ ok b e → Played b
  applied :
      {b : Board}
      → Played b
      → (x : Command) (a : ℕ → ℕ) → ((i : ℕ) → i < nargs x → InDigits (a i))
      → {rule : Board → Result × Option (List ℕ)} → rule_of x a ≡ some rule
      → {b' : Board} {e : Bool} → (rule b).0 ≡ ok b' e
      → Played b'

Played-Clean : (b : Board) → Played b → Clean b
Played-Clean b new_board = mk_board-Clean
Played-Clean b (read s e) = subst (OnOk Clean) e (board-Clean s)
Played-Clean b' (applied {b} before x a inside {rule} found left) =
    let steps : Stepping (λ b. (rule b).0) =
      subst (Held Stepping) found (rule_of-Held Stepping Stepping-Facts a x inside) in
    let step : Step b b' = subst (OnOk (Step b)) left (steps b) in
    Step-Clean b b' step (Played-Clean b before)

first_from-entry :
    (ms : List Bool) (i k : ℕ)
    → first_from i ms ≡ some k
    → (j : ℕ) × (k ≡ i + j) × (get_or ms j false ≡ true)
unfolding first_from
first_from-entry [] i k h = absurd cc
first_from-entry (true ∷ ms) i k h = (0, sym (some-injective i k h) ∙ omega arith, refl)
first_from-entry (false ∷ ms) i k h =
    let (j, e, found) = first_from-entry ms (i + 1) k h in (suc j, omega (arith, e), found)

first-mark : (x : Cell) (d : ℕ) → first x ≡ some d → mark x d ≡ true
unfolding first
first-mark x d h =
    let (j, e, found) = first_from-entry x.marks 1 d h in
    let at : d - 1 ≡ j = omega (arith, e) in entry→mark x d (omega (arith, e)) (rw at found)

-- A cell that shows a digit is determined, and has the digit.
shows : (x : Cell) (d : ℕ) → show_cell x ≡ some (48 + d) → (x.determined ≡ true) × (mark x d ≡ true)
unfolding show_cell
shows x d h = elim (Bool-cases (x.determined && unknowns x == 1)) [
  | inr dot ↦
      let e : show_cell x ≡ some 46 = rw (show_cell, dot) refl in
      let same_code = some-injective 46 (48 + d) (sym e ∙ h) in absurd (omega (arith, same_code))
  | inl digit ↦ elim (Option-cases (first x)) [
    | inl nothing ↦
        let e : show_cell x ≡ none = rw (show_cell, digit, nothing) refl in absurd (cc (e, h))
    | inr (k, found) ↦
        let e : show_cell x ≡ some (48 + k) = rw (show_cell, digit, found) refl in
        let same_code = some-injective (48 + k) (48 + d) (sym e ∙ h) in
        let here : k ≡ d = omega (arith, same_code) in
        (ground (arith, digit), first-mark x d (found ∙ ap some here))
  ]
]

-- On every board of a game, two places of the same row, column or square that show a digit show
-- different ones: whatever was read, and whatever rules were applied to it, as long as they end
-- without an error.
pub Played-legal :
    (b : Board)
    → Played b
    → (p q : Place) (d : ℕ) → peers p q ≡ true
    → show_cell (b p) ≡ some (48 + d)
    → show_cell (b q) ≢ some (48 + d)
Played-legal b played p q d peer here there =
    let (determined, left) = shows (b p) d here in
    let gone = Played-Clean b played p determined q d peer left in
    absurd (cc (gone, (shows (b q) d there).1))
