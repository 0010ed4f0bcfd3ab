-- ===== src/Interp/Returns.antt =====
-- The functions of src/interp.c return, as long as there is memory.
use gtksudoku.Prelude.{
  ℕ, ◌+◌, ◌≡◌, refl, Bool, true, Option, none, some, List, [], ◌∷◌, length, ◌==◌, if◌then◌else◌, ℤ,
  negsuc,
}
use gtksudoku.Prelude.{
  Outcome, done, IsDone, IsDone->>=, IsDone-if, Option-cases, Bool-cases, inl, inr, ◌⊎◌,
}
use gtksudoku.Tools.Files.{codes}
use gtksudoku.Interp.{Lua, clone, interp_load, interp_init, register}
use gtksudoku.Interp.Eval.{eval_words, call_eval}

module _ (lua : Lua) (atoi : List ℕ → ℤ) (malloc_ok : ℕ → Bool)
    (room : (n : ℕ) → malloc_ok n ≡ true) where
  open lua use {State}

  pub clone_ok : (s : Option (List ℕ)) → clone lua atoi malloc_ok s ≡ done s
  unfolding clone
  clone_ok none = refl
  clone_ok (some s) = rw (room (length s + 1))

  pub clone-IsDone : (s : Option (List ℕ)) → IsDone (clone lua atoi malloc_ok s)
  clone-IsDone s = rw (clone_ok s) tt

  pub eval_words-IsDone :
      (ws : List (List ℕ)) (st : State) → IsDone (eval_words lua atoi malloc_ok ws st)
  unfolding eval_words call_eval
  eval_words-IsDone [] st = tt
  eval_words-IsDone (w ∷ ws) st =
      IsDone->>= (clone lua atoi malloc_ok _) _ (clone-IsDone _) (λ msg. tt)

  pub interp_load-IsDone :
      (board : List ℕ) (st : State) → IsDone (interp_load lua atoi malloc_ok board st)
  unfolding interp_load
  interp_load-IsDone board st =
      let r : ℕ × State = lua.pcall 1 0 (lua.pushstring board (lua.getglobal (codes "load") st)) in
      let text : Option (List ℕ) = lua.tostring (negsuc 0) r.1 in
      let k : Option (List ℕ) → Outcome (Option (List ℕ) × State) = λ msg. done (msg, r.1) in
      IsDone->>= (if r.0 == 0 then done none else clone lua atoi malloc_ok text) k
        (IsDone-if (r.0 == 0) (done none) (clone lua atoi malloc_ok text) tt (clone-IsDone text))
        (λ msg. tt {0})

  -- The interpreter starts, with or without a message, or there is a message and no state.
  pub interp_init-cases :
      ((msg : List ℕ) × (interp_init lua atoi malloc_ok ≡ done (some msg, none)))
      ⊎ ((msg : Option (List ℕ)) × (st : State) × (interp_init lua atoi malloc_ok
            ≡ done (msg, some st)))
  unfolding interp_init clone
  interp_init-cases = elim (Option-cases lua.newstate) [
    | inl e ↦ inl (
      codes "Failed to create a Lua interpreter",
      rw (e, clone_ok (some (codes "Failed to create a Lua interpreter"))),
    )
    | inr (st, e) ↦
        let loaded : ℕ × State = lua.loadbuffer (register lua atoi malloc_ok (lua.openlibs st)) in
        let r : ℕ × State = if loaded.0 == 0 then lua.pcall 0 0 loaded.1 else loaded in
        elim (Bool-cases (r.0 == 0)) [
          | inl ok ↦ inr (none, r.1, rw (e, ok))
          | inr bad ↦ inr (
            lua.tostring (negsuc 0) r.1,
            r.1,
            rw (e, bad, clone_ok (lua.tostring (negsuc 0) r.1)),
          )
        ]
  ]
