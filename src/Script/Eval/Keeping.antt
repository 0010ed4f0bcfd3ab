-- ===== src/Script/Eval/Keeping.antt =====
-- The boards of a session keep a solution of the puzzle.
use mathlib.Core.Path.{subst}
use gtksudoku.Prelude.{ℕ, ◌<◌, ◌≡◌, refl, Bool, true, Option, none, some}
use gtksudoku.Prelude.{List, [], ◌∷◌, length, Bool-cases, Option-cases, inl, inr}
use gtksudoku.Script.Board.{Place, Board, Result, ok, raised, out_of_fuel}
use gtksudoku.Script.Board.Determine.{Good}
use gtksudoku.Script.Solution.{Keeps, is_solution}
use gtksudoku.Script.Load
use gtksudoku.Script.Load.{digits2, strip_string, table}
use gtksudoku.Script.Load.Laws.{fits, board-Good, mk_board-Keeps, table-InTable}
use gtksudoku.Script.Pairs.Laws.{InDigits}
use gtksudoku.Script.Strategies.Soundness.{Keeping}
use gtksudoku.Script.Session.{
  Session, push, back, swap, new, same_board, tostring, print_all, Reply, said, failed,
  nothing_to_save, stuck, reading, load,
}
use gtksudoku.Script.Session.Texts.{show_cells_lem}
use gtksudoku.Script.Commands
use gtksudoku.Script.Commands.{Command, rule_of, nargs, other_op}
use gtksudoku.Script.Commands.Facts.{rule_of-Held, Keeping-Facts}
use gtksudoku.Script.Eval.{
  Arg, Help, edited, do_edit, printed, answer, after_rule, run_command, eval,
}
use gtksudoku.Script.Eval.Cases.{eval-cases, on_rule}

module _ (sol : Place → ℕ) where
  abbrev pub KeepsIt : Option Board → Type 0
  KeepsIt none = Unit
  KeepsIt (some b) = Keeps sol b

  abbrev pub KeepsAll : List Board → Type 0
  KeepsAll [] = Unit
  KeepsAll (b ∷ bs) = Keeps sol b × KeepsAll bs

  -- The digits of the solution are left on every board of a session.
  abbrev pub Solvable : Session → Type 0
  Solvable st = KeepsIt st.it × KeepsAll st.history

  -- A call that ends without an error, in such a session.
  abbrev pub Kept : Reply → Type 0
  Kept (said message st calls shown) = Solvable st
  Kept (failed w st) = ⊥
  Kept (nothing_to_save st) = ⊥
  Kept stuck = ⊥

  KeepsIt-some : (o : Option Board) (b : Board) → o ≡ some b → KeepsIt o → Keeps sol b
  KeepsIt-some o b e h = subst KeepsIt e h

  push_cases :
      (it : Option Board) (history : List Board) (details : Bool)
      → KeepsIt it
      → KeepsAll history
      → Solvable (push (record { it = it; history = history; details = details }))
  unfolding push
  push_cases none history details now past = (now, past)
  push_cases (some b) [] details now past = (now, (now, tt))
  push_cases (some b) (top ∷ rest) details now past = elim (Bool-cases (same_board b top)) [
    | inl e ↦ rw (push, e) (now, past)
    | inr e ↦ rw (push, e) (now, (now, past))
  ]

  push-Solvable : (st : Session) → Solvable st → Solvable (push st)
  unfolding push
  push-Solvable st (now, past) = push_cases st.it st.history st.details now past

  back_cases :
      (b : Board) (it : Option Board) (history : List Board) (details : Bool)
      → KeepsIt it
      → KeepsAll history
      → Solvable (back b (record { it = it; history = history; details = details })).0
  unfolding back
  back_cases b it [] details now past = (now, past)
  back_cases b it (top ∷ []) details now (here, past) = elim (Bool-cases (same_board top b)) [
    | inl e ↦ rw (back, e) (now, tt)
    | inr e ↦ rw (back, e) (here, past)
  ]
  back_cases b it (top ∷ top' ∷ rest) details now (here, (here', past)) =
      elim (Bool-cases (same_board top b)) [
        | inl e ↦ rw (back, e) (here', past)
        | inr e ↦ rw (back, e) (here, (here', past))
      ]

  back-Solvable : (b : Board) (st : Session) → Solvable st → Solvable (back b st).0
  back-Solvable b st (now, past) = back_cases b st.it st.history st.details now past

  module _ (solved : is_solution sol ≡ true) where
    swap-Solvable : (b : Board) (st : Session) → Keeps sol b → Solvable st → Solvable (swap b st).0
    unfolding swap
    swap-Solvable b st here h =
        let s1 = (back b st).0 in
        let (now, past) = back-Solvable b st h in
        let (now', past') = push-Solvable (record s1 { it = some b }) (here, past) in (now, past')

    other_op-Solvable :
        (x : Command) (b : Board) (st : Session)
        → Keeps sol b
        → Solvable st
        → Solvable (other_op x b st).0
    unfolding other_op new
    other_op-Solvable Commands.back_ b st here h = back-Solvable b st h
    other_op-Solvable Commands.swap_ b st here h = swap-Solvable b st here h
    other_op-Solvable Commands.new_ b st here h =
        (mk_board-Keeps sol solved, (push-Solvable st h).1)
    other_op-Solvable Commands.details b st here h = h
    other_op-Solvable Commands.normal b st here h = h
    other_op-Solvable Commands.s b st here h = h
    other_op-Solvable Commands.r b st here h = h
    other_op-Solvable Commands.c b st here h = h
    other_op-Solvable Commands.d b st here h = h
    other_op-Solvable Commands.rs b st here h = h
    other_op-Solvable Commands.cs b st here h = h
    other_op-Solvable Commands.sr b st here h = h
    other_op-Solvable Commands.sc b st here h = h
    other_op-Solvable Commands.ps b st here h = h
    other_op-Solvable Commands.pr b st here h = h
    other_op-Solvable Commands.pc b st here h = h
    other_op-Solvable Commands.sps b st here h = h
    other_op-Solvable Commands.spr b st here h = h
    other_op-Solvable Commands.spc b st here h = h
    other_op-Solvable Commands.hint_ b st here h = h
    other_op-Solvable Commands.p b st here h = h
    other_op-Solvable Commands.simp b st here h = h
    other_op-Solvable Commands.all b st here h = h
    other_op-Solvable Commands.solve_ b st here h = h

    printed-Kept : (st : Session) (message : List ℕ) → Solvable st → Kept (printed st message)
    unfolding printed
    printed-Kept st message h = elim (Option-cases st.it) [
      | inl e ↦ rw (printed, e) h
      | inr (b, e) ↦ rw (printed, e) h
    ]

    after_rule-Kept :
        (res : Result) (m : Option (List ℕ)) (st : Session)
        → Good sol digits2 res
        → Solvable st
        → Kept (after_rule (res, m) st)
    unfolding after_rule
    after_rule-Kept (ok b e) m st (keeps, few) (now, past) =
        printed-Kept (record st { it = some b }) (answer e m) (keeps, past)
    after_rule-Kept (raised w b) m st good h = absurd good
    after_rule-Kept out_of_fuel m st good h = absurd good

    run_command-Kept :
        (x : Command) (a : ℕ → ℕ) (b : Board) (st : Session)
        → ((i : ℕ) → i < nargs x → InDigits (a i))
        → Keeps sol b
        → Solvable st
        → Kept (run_command x a b st)
    unfolding run_command
    run_command-Kept x a b st inside here h =
        on_rule Kept (Keeping sol solved) (rule_of x a) b st (other_op x b st)
          (rule_of-Held (Keeping sol solved) (Keeping-Facts sol solved) a x inside)
          (λ rule keeping. after_rule-Kept (rule b).0 (rule b).1 st (keeping b here) h)
          (printed-Kept (other_op x b st).0 (answer (other_op x b st).1 (other_op x b st).2)
            (other_op-Solvable x b st here h))

    reading-Kept :
        (k : Board → Reply) (st : Session) (res : Result)
        → ((b : Board) → Keeps sol b → Kept (k b))
        → Good sol digits2 res
        → Kept (reading k st res)
    reading-Kept k st (ok b e) h (keeps, few) = h b keeps
    reading-Kept k st (raised w b) h good = absurd good
    reading-Kept k st out_of_fuel h good = absurd good

    -- A text of a board that fits the solution.
    abbrev pub Fitting : List ℕ → Type 0
    Fitting s = (length (strip_string s) ≡ digits2) × (fits sol table (strip_string s) ≡ true)

    pub load-Kept : (s : List ℕ) (st : Session) → Fitting s → Kept (load s st)
    unfolding load
    load-Kept s st (long, fit) =
        reading-Kept
          (λ b. said none (record st { it = some b; history = [] }) (print_all st.details b) none)
          st (Load.board s) (λ b keeps. (keeps, tt)) (board-Good sol solved s long fit)

    -- What the user makes of a board, if anything, fits the solution.
    abbrev pub Honest : (Option (List ℕ) → Option (List ℕ)) → Type 0
    Honest edit = (before : Option (List ℕ)) (s : List ℕ) → edit before ≡ some s → Fitting s

    edited-Kept :
        (o : Option (List ℕ)) (st : Session)
        → ((s : List ℕ) → o ≡ some s → Fitting s)
        → Solvable st
        → Kept (edited o st)
    unfolding edited
    edited-Kept none st fitting h = h
    edited-Kept (some s) st fitting h =
        let (long, fit) = fitting s refl in
        reading-Kept
          (λ b. said none (record (push st) { it = some b }) (print_all st.details b) none)
          (push st) (Load.board s) (λ b keeps. (keeps, (push-Solvable st h).1))
          (board-Good sol solved s long fit)

    do_edit-Kept :
        (edit : Option (List ℕ) → Option (List ℕ)) (st : Session)
        → Honest edit
        → Solvable st
        → Kept (do_edit edit st)
    unfolding do_edit tostring
    do_edit-Kept edit st honest h = elim (Option-cases st.it) [
      | inl e ↦ rw (do_edit, e) (edited-Kept (edit none) st (honest none) h)
      | inr (b, e) ↦
          let keeps = KeepsIt-some st.it b e h.0 in
          let (s, shown, rest) = show_cells_lem sol solved b keeps table table-InTable in
          rw (do_edit, e, shown) (edited-Kept (edit (some s)) st (honest (some s)) h)
    ]

    -- If the digits of a solution of the puzzle are left on the current board and on those of the
    -- history, and a board that the user edits fits the solution: whatever the user enters, `eval`
    -- returns without an error, and leaves a session of which the same holds.
    pub eval-Kept :
        (help : Help) (edit : Option (List ℕ) → Option (List ℕ)) (name : Arg) (args : List Arg)
        (st : Session)
        → Honest edit
        → Solvable st
        → Kept (eval help edit name args st)
    eval-Kept help edit name args st honest h =
        eval-cases Kept help edit st name args (λ m shown. h) (do_edit-Kept edit st honest h)
          (λ no_board. h)
          (λ x a b it inside.
            run_command-Kept x a b (push st) inside (KeepsIt-some st.it b it h.0)
              (push-Solvable st h))
