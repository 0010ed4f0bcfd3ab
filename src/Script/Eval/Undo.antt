-- ===== src/Script/Eval/Undo.antt =====
-- The command `back` undoes a rule, and the command `swap` goes between two boards.
use gtksudoku.Prelude.{
  ℕ, ◌≡◌, refl, ap, sym, ◌∙◌, Bool, true, false, not, arith, Option, none, some,
}
use gtksudoku.Prelude.{List, [], ◌∷◌, Bool-cases, inl, inr, if◌then◌else◌}
use gtksudoku.Tools.Files.{codes}
use gtksudoku.Script.Cell.{Cell, differ}
use gtksudoku.Script.Board.{Board}
use gtksudoku.Script.Solution.{for_sides}
use gtksudoku.Script.Session.{Session, push, back, swap, same_board, same_cell, same_marks, Reply}
use gtksudoku.Script.Commands.{rule_of, other_op, nargs, name_of}
use gtksudoku.Script.Eval.{
  text, Help, printed, answer, run_command, eval_command, eval, find_command, find_in, asks_help,
  numbers,
}

differ_refl : (b : Bool) → differ b b ≡ false
differ_refl true = refl
differ_refl false = refl

same_marks_refl : (ms : List Bool) → same_marks ms ms ≡ true
unfolding same_marks
same_marks_refl [] = refl
same_marks_refl (m ∷ ms) = ground (arith, differ_refl m, same_marks_refl ms)

same_cell_refl : (x : Cell) → same_cell x x ≡ true
unfolding same_cell
same_cell_refl x = ground (arith, differ_refl x.determined, same_marks_refl x.marks)

for_sides_lem : (f : ℕ → Bool) → ((i : ℕ) → f i ≡ true) → for_sides f ≡ true
for_sides_lem f h = ground (arith, h 1, h 2, h 3)

same_board_refl : (b : Board) → same_board b b ≡ true
unfolding same_board
same_board_refl b =
    for_sides_lem
      (λ r1. for_sides (λ c1.
        for_sides (λ r2. for_sides (λ c2. same_cell (b (r1, c1, r2, c2)) (b (r1, c1, r2, c2))))))
      (λ r1.
        for_sides_lem
          (λ c1.
            for_sides (λ r2. for_sides (λ c2. same_cell (b (r1, c1, r2, c2)) (b (r1, c1, r2, c2)))))
          (λ c1.
            for_sides_lem
              (λ r2. for_sides (λ c2. same_cell (b (r1, c1, r2, c2)) (b (r1, c1, r2, c2))))
              (λ r2.
                for_sides_lem (λ c2. same_cell (b (r1, c1, r2, c2)) (b (r1, c1, r2, c2)))
                  (λ c2. same_cell_refl (b (r1, c1, r2, c2))))))

not-true : (x : Bool) → not x ≡ true → x ≡ false
not-true true h = sym h
not-true false h = refl

-- What `push` leaves on top of the history for a current board, and below it.
unfoldable pub top_of : Board → List Board → Board
top_of b [] = b
top_of b (top ∷ rest) = if same_board b top then top else b

unfoldable pub below : Board → List Board → List Board
below b [] = []
below b (top ∷ rest) = if same_board b top then rest else top ∷ rest

abbrev pub session : Board → List Board → Bool → Session
session b history mode = record { it = some b; history = history; details = mode }

push_lem :
    (b : Board) (history : List Board) (mode : Bool)
    → push (session b history mode) ≡ session b (top_of b history ∷ below b history) mode
unfolding push top_of below
push_lem b [] mode = refl
push_lem b (top ∷ rest) mode = elim (Bool-cases (same_board b top)) [
  | inl e ↦ rw (push, e) refl
  | inr e ↦ rw (push, e) refl
]

top_of-same : (b : Board) (history : List Board) → same_board b (top_of b history) ≡ true
unfolding top_of
top_of-same b [] = same_board_refl b
top_of-same b (top ∷ rest) = elim (Bool-cases (same_board b top)) [
  | inl e ↦ rw (e, e) refl
  | inr e ↦ rw e (same_board_refl b)
]

-- The history does not have the board on top.
unfoldable pub fresh : Board → List Board → Bool
fresh b [] = true
fresh b (top ∷ rest) = not (same_board b top)

-- Such a board is pushed.
push-fresh :
    (b : Board) (history : List Board) (mode : Bool)
    → fresh b history ≡ true
    → push (session b history mode) ≡ session b (b ∷ history) mode
unfolding push fresh
push-fresh b [] mode h = refl
push-fresh b (top ∷ rest) mode h = let e = not-true (same_board b top) h in rw (push, e) refl

-- `back` then passes by it.
back-pushed :
    (b top : Board) (rest : List Board) (mode : Bool)
    → back b (session b (b ∷ top ∷ rest) mode) ≡ (session top rest mode, true)
unfolding back
back-pushed b top rest mode = rw (back, same_board_refl b) refl

module _ (help : Help) (edit : Option (List ℕ) → Option (List ℕ)) where
  -- What is entered is a command without arguments.
  abbrev pub enter : List ℕ → Session → Reply
  enter name st = eval help edit (text name) [] st

  enter-back :
      (b : Board) (history : List Board) (mode : Bool)
      → let r = back b (push (session b history mode)) in
        enter (codes "back") (session b history mode) ≡ printed r.0 (answer r.1 none)
  unfolding eval find_command find_in name_of asks_help eval_command nargs numbers run_command
      rule_of other_op
  enter-back b history mode = refl

  enter-swap :
      (b : Board) (history : List Board) (mode : Bool)
      → let r = swap b (push (session b history mode)) in
        enter (codes "swap") (session b history mode) ≡ printed r.0 (answer r.1 none)
  unfolding eval find_command find_in name_of asks_help eval_command nargs numbers run_command
      rule_of other_op
  enter-swap b history mode = refl

  -- When the current board was pushed and has changed since, so that it is not like the board on top
  -- of the history, the command `back` makes that board current, which is like the board of
  -- before, and takes it off the history.
  pub back_undoes :
      (b b' : Board) (history : List Board) (mode : Bool)
      → same_board b' (top_of b history) ≡ false
      → (same_board b (top_of b history) ≡ true)
        × (enter (codes "back") (record (push (session b history mode)) { it = some b' })
            ≡ printed (session (top_of b history) (below b history) mode) (codes "yes"))
  unfolding answer fresh
  back_undoes b b' history mode changed =
      let top = top_of b history in
      let rest = below b history in
      let pushed = push_lem b history mode in
      let other : fresh b' (top ∷ rest) ≡ true = ap not changed in
      (
        top_of-same b history,
        ap (λ st. enter (codes "back") (record st { it = some b' })) pushed
            ∙ enter-back b' (top ∷ rest) mode
            ∙ ap (λ st. let r = back b' st in printed r.0 (answer r.1 none))
                (push-fresh b' (top ∷ rest) mode other)
            ∙ ap (λ (r : Session × Bool). printed r.0 (answer r.1 none))
                (back-pushed b' top rest mode),
      )

  swap_once :
      (b top : Board) (rest : List Board) (mode : Bool)
      → fresh b (top ∷ rest) ≡ true
      → fresh b rest ≡ true
      → enter (codes "swap") (session b (top ∷ rest) mode)
        ≡ printed (session top (b ∷ rest) mode) (codes "yes")
  unfolding answer swap
  swap_once b top rest mode other new =
      enter-swap b (top ∷ rest) mode
      ∙ ap (λ st. let r = swap b st in printed r.0 (answer r.1 none))
          (push-fresh b (top ∷ rest) mode other)
      ∙ ap
          (λ (r : Session × Bool).
            let s2 = push (record r.0 { it = some b }) in
            printed (record s2 { it = r.0.it }) (codes "yes"))
          (back-pushed b top rest mode)
      ∙ ap (λ (s2 : Session). printed (record s2 { it = some top }) (codes "yes"))
          (push-fresh b rest mode new)

  -- If two boards are unlike each other and the board that stands below them in the history, the
  -- command `swap` makes the one on top of the history current and the current one the top, and
  -- entered again it restores both.
  pub swap_swap :
      (b top : Board) (rest : List Board) (mode : Bool)
      → fresh b (top ∷ rest) ≡ true
      → fresh b rest ≡ true
      → fresh top (b ∷ rest) ≡ true
      → fresh top rest ≡ true
      → (enter (codes "swap") (session b (top ∷ rest) mode)
          ≡ printed (session top (b ∷ rest) mode) (codes "yes"))
        × (enter (codes "swap") (session top (b ∷ rest) mode)
            ≡ printed (session b (top ∷ rest) mode) (codes "yes"))
  swap_swap b top rest mode h k h' k' =
      (swap_once b top rest mode h k, swap_once top b rest mode h' k')
