-- ===== src/Interp/Stack.antt =====
-- The Lua stack under the commands of a session: what `interp_eval` leaves on it.
use gtksudoku.Prelude.{ℕ, ◌+◌, ◌≤◌, ◌≡◌, ◌∙◌, Bool, Option, List, [], ◌∷◌, length}
use gtksudoku.Prelude.{
  ◌==◌, if◌then◌else◌, ℤ, negsuc, Outcome, done, ◌>>=◌, >>=-eq-done, arith, sym,
}
use gtksudoku.Tools.Files.{codes}
use gtksudoku.Interp.{Lua, clone, interp_eval}
use gtksudoku.Interp.Words.{words}
use gtksudoku.Interp.Eval.{
  StopsAtSpace, push_word, push_words, call_eval, eval_words, interp_eval_lem,
}

-- What the Lua manual says of the number of values on the stack: a push adds one, and `pcall`
-- replaces the function and its arguments by the results, or by one message if it fails.
pub record StackLaws (lua : Lua) (depth : lua.State → ℕ) : Type 0 where
  pub getglobal_depth :
      (name : List ℕ) (st : lua.State) → depth (lua.getglobal name st) ≡ depth st + 1
  pub pushlstring_depth :
      (s : List ℕ) (st : lua.State) → depth (lua.pushlstring s st) ≡ depth st + 1
  pub pushinteger_depth : (n : ℤ) (st : lua.State) → depth (lua.pushinteger n st) ≡ depth st + 1
  pub pcall_depth :
      (nargs nresults : ℕ) (st : lua.State)
      → nargs + 1 ≤ depth st
      → let r = lua.pcall nargs nresults st in
        depth r.1 + nargs + 1 ≡ depth st + (if r.0 == 0 then nresults else 1)

-- How many of the commands of a session are not blank.
abbrev is_command : List ℕ → ℕ
is_command cmd = elim (words cmd) [ [] ↦ 0 | _ ∷ _ ↦ 1 ]

abbrev pub commands : List (List ℕ) → ℕ
commands [] = 0
commands (cmd ∷ cmds) = is_command cmd + commands cmds

-- The commands of a session, one after the other.
unfoldable pub eval_all :
    (lua : Lua) → (List ℕ → ℤ) → (ℕ → Bool) → List (List ℕ) → lua.State → Outcome lua.State
eval_all lua atoi malloc_ok [] st = done st
eval_all lua atoi malloc_ok (cmd ∷ cmds) st = do
  r ← interp_eval lua atoi malloc_ok cmd st
  eval_all lua atoi malloc_ok cmds r.1

module _ (lua : Lua) (atoi : List ℕ → ℤ) (malloc_ok : ℕ → Bool) (depth : lua.State → ℕ)
    (laws : StackLaws lua depth) (stops : StopsAtSpace atoi) where
  open lua use {State}
  open laws use {getglobal_depth, pushlstring_depth, pushinteger_depth, pcall_depth}

  push_word_depth :
      (w : List ℕ) (st : State) → depth (push_word lua atoi malloc_ok w st) ≡ depth st + 1
  unfolding push_word
  push_word_depth w st = ground (arith, pushlstring_depth w st, pushinteger_depth (atoi w) st)

  push_words_depth :
      (ws : List (List ℕ)) (st : State)
      → depth (push_words lua atoi malloc_ok ws st) ≡ depth st + length ws
  unfolding push_words
  push_words_depth [] st = omega arith
  push_words_depth (w ∷ ws) st =
      omega (arith, push_word_depth w st, push_words_depth ws (push_word lua atoi malloc_ok w st))

  call_eval_depth :
      (n : ℕ) (st st' : State) (msg : Option (List ℕ))
      → n + 1 ≤ depth st
      → call_eval lua atoi malloc_ok n st ≡ done (msg, st')
      → depth st' + n ≡ depth st
  unfolding call_eval
  call_eval_depth n st st' msg fits e =
      let after = (lua.pcall n 1 st).1 in
      let ends =
        >>=-eq-done (clone lua atoi malloc_ok (lua.tostring (negsuc 0) after))
          (λ m. done (m, after)) e in
      ground (arith, pcall_depth n 1 st fits, ends.2)

  eval_words_depth :
      (ws : List (List ℕ)) (st st' : State) (msg : Option (List ℕ))
      → eval_words lua atoi malloc_ok ws st ≡ done (msg, st')
      → depth st' ≡ depth st + (elim ws [ [] ↦ 0 | _ ∷ _ ↦ 1 ])
  unfolding eval_words
  eval_words_depth [] st st' msg e = ground arith
  eval_words_depth (w ∷ ws) st st' msg e =
      let named = lua.getglobal (codes "eval") st in
      let pushed = push_words lua atoi malloc_ok (w ∷ ws) named in
      let here = push_words_depth (w ∷ ws) named in
      let base = getglobal_depth (codes "eval") st in
      omega (
        arith,
        here,
        base,
        call_eval_depth (length (w ∷ ws)) pushed st' msg (omega (arith, here, base)) e,
      )

  -- If `atoi` stops at a space and the calls of the library do to the stack what the manual says:
  -- every command that is not blank leaves its result on the Lua stack, so at the end of a session
  -- that ends the stack is deeper by the number of those commands.
  pub eval_all_depth :
      (cmds : List (List ℕ)) (st st' : State)
      → eval_all lua atoi malloc_ok cmds st ≡ done st'
      → depth st' ≡ depth st + commands cmds
  unfolding eval_all
  eval_all_depth [] st st' e = ground arith
  eval_all_depth (cmd ∷ cmds) st st' e =
      let (r, first, rest) =
        >>=-eq-done (interp_eval lua atoi malloc_ok cmd st)
          (λ r. eval_all lua atoi malloc_ok cmds r.1) e in
      let one =
        eval_words_depth (words cmd) st r.1 r.0
          (sym (interp_eval_lem lua atoi malloc_ok stops cmd st) ∙ first) in
      omega (arith, one, eval_all_depth cmds r.1 st' rest)
