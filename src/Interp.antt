-- ===== src/Interp.antt =====
-- src/interp.c: the link between the GUI and the script. The Lua library is an interface: its
-- state, which stands for all that a call of the script can reach, and the calls that this file
-- makes. What `atoi` reads and the success of `malloc` are arguments too.
pub mod Words
pub mod Eval
pub mod Stack
pub mod Callbacks
pub mod Returns
pub mod Gui
pub mod Contract
use gtksudoku.Prelude.{
  ℕ, zero, suc, ◌+◌, Bool, true, ◌&&◌, Option, none, some, List, [], ◌∷◌, length,
}
use gtksudoku.Prelude.{◌==◌, leb, if◌then◌else◌, ℤ, negsuc, Outcome, done, exited, stuck, ◌>>=◌}
use gtksudoku.Tools.Files.{codes}

-- The calls of the library. `pcall nargs nresults` answers a status, which is 0 for success.
pub record Lua : Type 1 where
  pub State : Type 0
  pub getglobal : List ℕ → State → State
  pub setglobal : List ℕ → State → State
  pub pushlstring : List ℕ → State → State
  pub pushstring : List ℕ → State → State
  pub pushinteger : ℤ → State → State
  pub pushcfunction : List ℕ → State → State
  pub pcall : ℕ → ℕ → State → ℕ × State
  pub tostring : ℤ → State → Option (List ℕ)
  pub newstate : Option State
  pub openlibs : State → State
  pub loadbuffer : State → ℕ × State

-- `isdigit` of <ctype.h>.
unfoldable pub isdigit : ℕ → Bool
isdigit c = leb b'0' c && leb c b'9'

unfoldable pub all_digits : List ℕ → Bool
all_digits [] = true
all_digits (c ∷ s) = isdigit c && all_digits s

-- `while (*cmd == ' ') cmd++;`
unfoldable pub skip_spaces : List ℕ → List ℕ
skip_spaces [] = []
skip_spaces (c ∷ s) = let rest = skip_spaces s in if c == b' ' then rest else c ∷ s

-- `tail = strchr(cmd, ' ')`: the bytes from `cmd` to the tail or the end of the text, and what
-- stands behind the separator, if there is one.
unfoldable pub split_space : List ℕ → List ℕ × Option (List ℕ)
split_space [] = ([], none)
split_space (c ∷ s) =
    let rest = split_space s in if c == b' ' then ([], some s) else (c ∷ rest.0, rest.1)

module _ (lua : Lua) (atoi : List ℕ → ℤ) (malloc_ok : ℕ → Bool) where
  open lua use {
    State, getglobal, setglobal, pushlstring, pushstring, pushinteger, pushcfunction, pcall,
    tostring, newstate, openlibs, loadbuffer,
  }

  unfoldable pub clone : Option (List ℕ) → Outcome (Option (List ℕ))
  clone none = done none
  clone (some s) = if malloc_ok (length s + 1) then done (some s) else exited 1

  -- `push_item`, for the bytes of an item and the text that begins with them.
  unfoldable pub push_item : List ℕ → List ℕ → State → State
  push_item item cmd st = if all_digits item then pushinteger (atoi cmd) st else pushlstring item st

  -- The loop of `interp_eval` over the items, on fuel.
  unfoldable pub push_items : ℕ → ℕ → List ℕ → State → Outcome (ℕ × State)
  push_items zero nargs cmd st = stuck
  push_items (suc fuel) nargs cmd st =
      let item = split_space cmd in
      let st' = push_item item.0 cmd st in
      elim item.1 [
        | none ↦ done (nargs + 1, st')
        | some tail ↦ elim (skip_spaces tail) [
          | [] ↦ done (nargs + 1, st')
          | c ∷ s ↦ push_items fuel (nargs + 1) (c ∷ s) st'
        ]
      ]

  -- `interp_eval`: the message, and the state behind it. Each round of the loop takes at least one
  -- character, so the length of the command is fuel enough.
  unfoldable pub interp_eval : List ℕ → State → Outcome (Option (List ℕ) × State)
  interp_eval cmd st = elim (skip_spaces cmd) [
    | [] ↦ done (none, st)
    | c ∷ s ↦ do
      r ← push_items (suc (length (c ∷ s))) 0 (c ∷ s) (getglobal (codes "eval") st)
      let st' = (pcall r.0 1 r.1).1
      msg ← clone (tostring (negsuc 0) st')
      done (msg, st')
  ]

  unfoldable pub interp_load : List ℕ → State → Outcome (Option (List ℕ) × State)
  interp_load board st = do
    let r = pcall 1 0 (pushstring board (getglobal (codes "load") st))
    msg ← (if r.0 == 0 then done none else clone (tostring (negsuc 0) r.1))
    done (msg, r.1)

  -- `interp_save`: the board that it stores, the message that it returns, and the state.
  unfoldable pub interp_save : State → Outcome (Option (List ℕ) × Option (List ℕ) × State)
  interp_save st = do
    let r = pcall 0 1 (getglobal (codes "save") st)
    text ← clone (tostring (negsuc 0) r.1)
    done (if r.0 == 0 then (text, none, r.1) else (none, text, r.1))

  -- The functions of this file that the script can call.
  unfoldable pub register : State → State
  register st =
      let st1 = setglobal (codes "set_val") (pushcfunction (codes "set_val") st) in
      let st2 = setglobal (codes "edit") (pushcfunction (codes "edit") st1) in
      setglobal (codes "show") (pushcfunction (codes "show") st2)

  -- `interp_init`: the message, and the state, if there is one.
  unfoldable pub interp_init : Outcome (Option (List ℕ) × Option State)
  unfolding register
  interp_init = elim newstate [
    | none ↦ do msg ← clone (some (codes "Failed to create a Lua interpreter")); done (msg, none)
    | some st ↦ do
      let loaded = loadbuffer (register (openlibs st))
      let r = if loaded.0 == 0 then pcall 0 0 loaded.1 else loaded
      msg ← (if r.0 == 0 then done none else clone (tostring (negsuc 0) r.1))
      done (msg, some r.1)
  ]
