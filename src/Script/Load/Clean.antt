-- ===== src/Script/Load/Clean.antt =====
-- A board that was read has the digits of its hints taken away from the other places.
use gtksudoku.Prelude.{ℕ, ◌+◌, List, [], ◌∷◌, ◌==◌, length, Bool-cases, Option-cases, inl, inr}
use gtksudoku.Script.Cell.{mk_cell, singleton}
use gtksudoku.Script.Board.{Place, Board, mk_board, put, determine}
use gtksudoku.Script.Board.Clean.{
  OnOk, OnOk-then_with, OnOk-weaken, Step, Step-refl, Step-trans, Step-next, Step-Clean, Clean,
}
use gtksudoku.Script.Board.Clean.Determined.{singleton-Step, determine-Step}
use gtksudoku.Script.Load
use gtksudoku.Script.Load.{digits2, digit_translator, strip_string, table, fill}

pub fill-Step : (ps : List Place) (cs : List ℕ) (b : Board) → OnOk (Step b) (fill ps cs b)
unfolding fill
fill-Step [] cs b = Step-refl b
fill-Step (p ∷ ps) [] b = Step-refl b
fill-Step (p ∷ ps) (c ∷ cs) b = elim (Option-cases (digit_translator c)) [
  | inl e ↦ rw (fill, e) (fill-Step ps cs b)
  | inr (d, e) ↦
      let b1 = put b p (singleton d (b p)).0 in
      rw (fill, e)
        (OnOk-then_with (Step b1) (Step b) (determine (digits2 + 1) p d b1) (λ b2 e2. fill ps cs b2)
          (determine-Step (digits2 + 1) p d b1)
          (λ b2 e2 step.
            Step-next b b2 (fill ps cs b2) (Step-trans b b1 b2 (singleton-Step b p d) step)
              (fill-Step ps cs b2)))
]

pub mk_board-Clean : Clean mk_board
unfolding mk_board mk_cell
mk_board-Clean p h = absurd cc

pub board-Clean : (s : List ℕ) → OnOk Clean (Load.board s)
unfolding Load.board
board-Clean s = elim (Bool-cases (length (strip_string s) == digits2)) [
  | inl e ↦
      rw (Load.board, e)
        (OnOk-weaken (Step mk_board) Clean (fill table (strip_string s) mk_board)
          (λ b step. Step-Clean mk_board b step mk_board-Clean)
          (fill-Step table (strip_string s) mk_board))
  | inr e ↦ rw (Load.board, e) tt
]
