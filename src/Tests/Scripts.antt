-- ===== src/Tests/Scripts.antt =====
-- Runs of the commands, and a library that is small enough to compute with: its state is the
-- number of values on the stack, and whether the script has a board.
use gtksudoku.Prelude.{ℕ, ◌+◌, ◌-◌, ◌*◌, ◌≤◌, ◌≡◌, ◌≢◌, refl, Bool, true, ◌&&◌, arith}
use gtksudoku.Prelude.{Option, none, some, List, [], ◌∷◌, ◌++◌, ◌==◌, if◌then◌else◌, ℤ, pos, negsuc}
use gtksudoku.Prelude.{done, Option-cases, inl, inr}
use gtksudoku.Tools.Files.{codes}
use gtksudoku.Interp.{
  Lua, isdigit, all_digits, interp_eval, skip_spaces, push_items, split_space, clone, push_item,
}
use gtksudoku.Interp.Words.{words}
use gtksudoku.Interp.Eval.{StopsAtSpace, eval_words, interp_eval_lem}
use gtksudoku.Interp.Stack.{StackLaws, eval_all, commands, eval_all_depth}
use gtksudoku.Interp.Callbacks
use gtksudoku.Interp.Callbacks.{Frame, set_val_callback}
use gtksudoku.Cell
use gtksudoku.Board.{Board}
use gtksudoku.Board.Laws.{IsBoard, value_at, new-IsBoard}
use gtksudoku.Tests.Boards.{empty, shown}
use gtksudoku.Tests.Dialogs.{puzzle}
use gtksudoku.Interp.Contract.{Contract, Messages, interp, load_fails, save_fails, interp-Contract}

-- The digits at the front of a text, as a number.
unfoldable pub read_digits : ℕ → List ℕ → ℤ
read_digits acc [] = pos acc
read_digits acc (c ∷ s) =
    let rest = read_digits (10 * acc + (c - b'0')) s in if isdigit c then rest else pos acc

abbrev pub atoi : List ℕ → ℤ
atoi s = read_digits 0 s

read_digits-space :
    (acc : ℕ) (w s : List ℕ)
    → all_digits w ≡ true
    → read_digits acc (w ++ b' ' ∷ s) ≡ read_digits acc w
unfolding read_digits all_digits isdigit
read_digits-space acc [] s h = refl
read_digits-space acc (c ∷ w) s h = ground (arith, read_digits-space (10 * acc + (c - b'0')) w s)

pub atoi-StopsAtSpace : StopsAtSpace atoi
atoi-StopsAtSpace c w s h = read_digits-space 0 (c ∷ w) s h

pub record Toy : Type 0 where
  pub depth : ℕ
  pub board : Option (List ℕ)

abbrev push : Toy → Toy
push st = record st { depth = st.depth + 1 }

abbrev toy_pcall : ℕ → ℕ → Toy → ℕ × Toy
toy_pcall nargs nresults st = elim st.board [
  | none ↦ (2, record st { depth = st.depth + 1 - (nargs + 1) })
  | some _ ↦ (0, record st { depth = st.depth + nresults - (nargs + 1) })
]

abbrev pub toy : Lua
toy = record {
  State = Toy;
  getglobal = λ name st. push st;
  setglobal = λ name st. record st { depth = st.depth - 1 };
  pushlstring = λ s st. push st;
  pushstring = λ s st. push st;
  pushinteger = λ n st. push st;
  pushcfunction = λ name st. push st;
  pcall = toy_pcall;
  tostring = λ i st. elim st.board [ none ↦ some (codes "nothing to save") | some s ↦ some s ];
  newstate = some (record { depth = 0; board = none });
  openlibs = λ st. st;
  loadbuffer = λ st. (0, push st);
}

abbrev pub idle : Toy
idle = record { depth = 1; board = none }

abbrev pub playing : Toy
playing = record { depth = 3; board = some puzzle }

abbrev pub malloc_ok : ℕ → Bool
malloc_ok _ = true

pcall_depth :
    (nargs nresults : ℕ) (st : Toy)
    → nargs + 1 ≤ st.depth
    → let r = toy_pcall nargs nresults st in
      r.1.depth + nargs + 1 ≡ st.depth + (if r.0 == 0 then nresults else 1)
pcall_depth nargs nresults st h = elim (Option-cases st.board) [
  | inl e ↦ rw e (omega arith)
  | inr (s, e) ↦ rw e (omega arith)
]

toy-StackLaws : StackLaws toy (λ st. st.depth)
toy-StackLaws = record {
  getglobal_depth = λ name st. refl;
  pushlstring_depth = λ s st. refl;
  pushinteger_depth = λ n st. refl;
  pcall_depth = pcall_depth;
}

three_words : words (codes " prune 4 1c ") ≡ codes "prune" ∷ codes "4" ∷ codes "1c" ∷ []
unfolding words
three_words = refl

interp_eval_lem_example :
    interp_eval toy atoi malloc_ok (codes " prune 4 1c ") playing
    ≡ eval_words toy atoi malloc_ok (words (codes " prune 4 1c ")) playing
interp_eval_lem_example =
    interp_eval_lem toy atoi malloc_ok atoi-StopsAtSpace (codes " prune 4 1c ") playing

abbrev session : List (List ℕ)
session = codes "prune 4" ∷ codes "  " ∷ codes "help" ∷ []

eval_all_depth_example : 5 ≡ 3 + commands session
unfolding eval_all interp_eval words skip_spaces push_items split_space clone push_item all_digits
    isdigit
eval_all_depth_example =
    eval_all_depth toy atoi malloc_ok (λ st. st.depth) toy-StackLaws atoi-StopsAtSpace session
      playing (record playing { depth = 5 }) refl

abbrev hide_cell : Frame
hide_cell = record {
  checkint = λ i. if i == 3 then some (negsuc 0) else some (pos (i + 3));
  toboolean = λ i. true;
  tostring = λ i. some puzzle;
}

set_val_callback_example :
    (board' : Board) × (Callbacks.set_val shown hide_cell empty ≡ done (some board'))
    × IsBoard true board'.rows
    × ((i j : ℕ)
        → value_at board'.rows i j
          ≡ (if i == 4 && j == 5 then some (Cell.and_all (negsuc 0)) else value_at empty.rows i j))
set_val_callback_example =
    set_val_callback shown true empty hide_cell 4 5 (negsuc 0) (new-IsBoard true) (omega arith)
      (omega arith) refl refl refl

pcall_saved :
    (st : Toy) → let r = toy_pcall 0 1 (push st) in r.0 ≡ 0 → toy.tostring (negsuc 0) r.1 ≢ none
pcall_saved st h = elim (Option-cases st.board) [
  | inl e ↦ rw e (λ same. cc)
  | inr (s, e) ↦ rw e (λ same. cc)
]

pcall_failed :
    (nargs nresults : ℕ) (st : Toy)
    → (toy_pcall nargs nresults st).0 ≢ 0
    → toy.tostring (negsuc 0) (toy_pcall nargs nresults st).1 ≢ none
pcall_failed nargs nresults st h = elim (Option-cases st.board) [
  | inl e ↦ rw e (λ same. cc)
  | inr (s, e) ↦ rw e (λ same. cc)
]

toy-Messages : Messages toy
toy-Messages = record { failed = pcall_failed; saved = pcall_saved }

interp-Contract_example :
    Contract
      (interp toy atoi malloc_ok)
      (load_fails toy atoi malloc_ok)
      (save_fails toy atoi malloc_ok)
interp-Contract_example =
    interp-Contract toy atoi malloc_ok (λ n. refl) atoi-StopsAtSpace toy-Messages
