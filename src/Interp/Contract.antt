-- ===== src/Interp/Contract.antt =====
-- src/interp.h: the functions that the interpreter link provides, as an interface, and what the
-- header promises of them. `none` is the null pointer.
use gtksudoku.Prelude.{ℕ, ◌≡◌, ◌≢◌, refl, Bool, true, not, Option, none, some, List}
use gtksudoku.Prelude.{
  ◌==◌, if◌then◌else◌, ◌⊎◌, inl, inr, ℤ, negsuc, Outcome, done, IsDone-returns, arith, Bool-cases,
}
use gtksudoku.Tools.Files.{codes}
use gtksudoku.Interp.{Lua, interp_eval, interp_load, interp_save, interp_init}
use gtksudoku.Interp.Returns.{clone_ok, eval_words-IsDone, interp_init-cases}
use gtksudoku.Interp.Words.{words}
use gtksudoku.Interp.Eval.{StopsAtSpace, interp_eval_lem}

-- Over the state of the interpreter, what each function returns. `save` also sets the board through
-- its argument, which is its first result.
pub record Interpreter : Type 1 where
  pub State : Type 0
  pub eval : List ℕ → State → Outcome (Option (List ℕ) × State)
  pub load : List ℕ → State → Outcome (Option (List ℕ) × State)
  pub save : State → Outcome (Option (List ℕ) × Option (List ℕ) × State)
  pub init : Outcome (Option (List ℕ) × Option State)

-- What the header says: every call returns; an error of `load` or `save` comes with a message, and
-- only an error does; `save` sets the board to null just where it returns a message; and `init`
-- returns a message, or there is an interpreter to go on with.
pub record Contract (i : Interpreter) (load_fails : List ℕ → i.State → Bool)
    (save_fails : i.State → Bool) : Type 0 where
  pub eval_returns :
      (cmd : List ℕ) (st : i.State) → (r : Option (List ℕ) × i.State) × (i.eval cmd st ≡ done r)
  pub load_returns :
      (board : List ℕ) (st : i.State)
      → (r : Option (List ℕ) × i.State) × (i.load board st ≡ done r)
        × (if load_fails board st then r.0 ≢ none else r.0 ≡ none)
  pub save_returns :
      (st : i.State)
      → (r : Option (List ℕ) × Option (List ℕ) × i.State) × (i.save st ≡ done r)
        × (if save_fails st then (r.0 ≡ none) × (r.1 ≢ none) else (r.0 ≢ none) × (r.1 ≡ none))
  pub init_returns :
      (r : Option (List ℕ) × Option i.State) × (i.init ≡ done r) × ((r.0 ≢ none) ⊎ (r.1 ≢ none))

-- What the Lua manual says of `pcall`, and what the script's `save` does: a message is left where a
-- call fails, and `save` returns a string where it does not.
pub record Messages (lua : Lua) : Type 0 where
  pub failed :
      (nargs nresults : ℕ) (st : lua.State)
      → (lua.pcall nargs nresults st).0 ≢ 0
      → lua.tostring (negsuc 0) (lua.pcall nargs nresults st).1 ≢ none
  pub saved :
      (st : lua.State)
      → let r = lua.pcall 0 1 (lua.getglobal (codes "save") st) in
        r.0 ≡ 0 → lua.tostring (negsuc 0) r.1 ≢ none

module _ (lua : Lua) (atoi : List ℕ → ℤ) (malloc_ok : ℕ → Bool) where
  open lua use {State, getglobal, pushstring, pcall, tostring}

  -- The functions of src/interp.c.
  abbrev pub interp : Interpreter
  interp = record {
    State = lua.State;
    eval = interp_eval lua atoi malloc_ok;
    load = interp_load lua atoi malloc_ok;
    save = interp_save lua atoi malloc_ok;
    init = interp_init lua atoi malloc_ok;
  }

  abbrev pub load_fails : List ℕ → State → Bool
  load_fails board st = not ((pcall 1 0 (pushstring board (getglobal (codes "load") st))).0 == 0)

  abbrev pub save_fails : State → Bool
  save_fails st = not ((pcall 0 1 (getglobal (codes "save") st)).0 == 0)

  module _ (room : (n : ℕ) → malloc_ok n ≡ true) (stops : StopsAtSpace atoi)
      (messages : Messages lua) where
    eval_lem :
        (cmd : List ℕ) (st : State)
        → (r : Option (List ℕ) × State) × (interp_eval lua atoi malloc_ok cmd st ≡ done r)
    eval_lem cmd st = IsDone-returns (interp_eval lua atoi malloc_ok cmd st) (
        rw (interp_eval_lem lua atoi malloc_ok stops cmd st)
          (eval_words-IsDone lua atoi malloc_ok room (words cmd) st))

    load_lem :
        (board : List ℕ) (st : State)
        → (r : Option (List ℕ) × State) × (interp_load lua atoi malloc_ok board st ≡ done r)
          × (if load_fails board st then r.0 ≢ none else r.0 ≡ none)
    unfolding interp_load
    load_lem board st =
        let call : State = pushstring board (getglobal (codes "load") st) in
        elim (Bool-cases ((pcall 1 0 call).0 == 0)) [
          | inl e ↦ ((none, (pcall 1 0 call).1), rw (interp_load, e) refl, rw e refl)
          | inr e ↦ (
            (tostring (negsuc 0) (pcall 1 0 call).1, (pcall 1 0 call).1),
            rw
                (
                  interp_load,
                  e,
                  clone_ok lua atoi malloc_ok room (tostring (negsuc 0) (pcall 1 0 call).1),
                )
                refl,
            rw e (messages.failed 1 0 call (ground (arith, e))),
          )
        ]

    save_lem :
        (st : State)
        → (r : Option (List ℕ) × Option (List ℕ) × State) × (interp_save lua atoi malloc_ok st
            ≡ done r)
          × (if save_fails st then (r.0 ≡ none) × (r.1 ≢ none) else (r.0 ≢ none) × (r.1 ≡ none))
    unfolding interp_save
    save_lem st =
        let call : State = getglobal (codes "save") st in
        let text : Option (List ℕ) = tostring (negsuc 0) (pcall 0 1 call).1 in
        elim (Bool-cases ((pcall 0 1 call).0 == 0)) [
          | inl e ↦ (
            (text, none, (pcall 0 1 call).1),
            rw (interp_save, e, clone_ok lua atoi malloc_ok room text) refl,
            rw e (messages.saved st (ground (arith, e)), refl),
          )
          | inr e ↦ (
            (none, text, (pcall 0 1 call).1),
            rw (interp_save, e, clone_ok lua atoi malloc_ok room text) refl,
            rw e (refl, messages.failed 0 1 call (ground (arith, e))),
          )
        ]

    init_lem :
        (r : Option (List ℕ) × Option State) × (interp_init lua atoi malloc_ok ≡ done r)
        × ((r.0 ≢ none) ⊎ (r.1 ≢ none))
    init_lem = elim (interp_init-cases lua atoi malloc_ok room) [
      | inl (msg, e) ↦ ((some msg, none), e, inl (λ same. cc))
      | inr (msg, st, e) ↦ ((msg, some st), e, inr (λ same. cc))
    ]

    pub interp-Contract : Contract interp load_fails save_fails
    interp-Contract = record {
      eval_returns = eval_lem;
      load_returns = load_lem;
      save_returns = save_lem;
      init_returns = init_lem;
    }
