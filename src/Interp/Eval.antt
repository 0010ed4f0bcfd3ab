-- ===== src/Interp/Eval.antt =====
-- `interp_eval` hands the words of the command to the script's `eval`.
use gtksudoku.Prelude.{refl, ℕ, zero, suc, ◌+◌, ◌<◌, ◌≡◌, ap, ◌∙◌, Bool, true, false, none}
use gtksudoku.Prelude.{Option, List, [], ◌∷◌, ◌++◌, length, ◌==◌, if◌then◌else◌, inl, inr, arith}
use gtksudoku.Prelude.{ℤ, negsuc, Outcome, done, ◌>>=◌}
use Prim.Native.Nat.add
use gtksudoku.Tools.Files.{codes}
use gtksudoku.Interp.{Lua, all_digits, split_space, clone, push_item, push_items, interp_eval}
use gtksudoku.Interp.Words.{
  words, length-skip_spaces, skip_spaces-cases, last, more, words-Cut, words_blank, words_begin,
  words_nonblank,
}

-- `atoi` reads the digits at the front of a text, of which there is one at least, and stops at a
-- space behind them.
abbrev pub StopsAtSpace : (List ℕ → ℤ) → Type 0
StopsAtSpace atoi =
    (c : ℕ) (w s : List ℕ) → all_digits (c ∷ w) ≡ true → atoi (c ∷ w ++ b' ' ∷ s) ≡ atoi (c ∷ w)

module _ (lua : Lua) (atoi : List ℕ → ℤ) (malloc_ok : ℕ → Bool) where
  open lua use {State, getglobal, pushlstring, pushinteger, pcall, tostring}

  -- What a word becomes: a number, if all its characters are digits, and else a string.
  unfoldable pub push_word : List ℕ → State → State
  push_word w st = if all_digits w then pushinteger (atoi w) st else pushlstring w st

  unfoldable pub push_words : List (List ℕ) → State → State
  push_words [] st = st
  push_words (w ∷ ws) st = push_words ws (push_word w st)

  -- The call of `eval` with `n` arguments on the stack, and the message that it leaves there.
  unfoldable pub call_eval : ℕ → State → Outcome (Option (List ℕ) × State)
  call_eval n st = do
    let st' = (pcall n 1 st).1
    msg ← clone lua atoi malloc_ok (tostring (negsuc 0) st')
    done (msg, st')

  -- What `interp_eval` should do, by the words of the command.
  unfoldable pub eval_words : List (List ℕ) → State → Outcome (Option (List ℕ) × State)
  eval_words [] st = done (none, st)
  eval_words (w ∷ ws) st =
      call_eval (length (w ∷ ws)) (push_words (w ∷ ws) (getglobal (codes "eval") st))

  module _ (stops : StopsAtSpace atoi) where
    push_item-last :
        (s item : List ℕ) (st : State)
        → s ≡ item
        → push_item lua atoi malloc_ok item s st ≡ push_word item st
    unfolding push_item push_word
    push_item-last s item st e = rw e

    push_item-cut :
        (s item tail : List ℕ) (st : State)
        → ¬ (item ≡ [])
        → s ≡ item ++ b' ' ∷ tail
        → push_item lua atoi malloc_ok item s st ≡ push_word item st
    unfolding push_item push_word
    push_item-cut s [] tail st some_digit e = absurd (some_digit refl)
    push_item-cut s (c ∷ w) tail st some_digit e = ground (arith, ap atoi e, stops c w tail)

    push_item-more :
        (c : ℕ) (s tail : List ℕ) (st : State)
        → (c == b' ') ≡ false
        → let item = (split_space (c ∷ s)).0 in
          c ∷ s ≡ item ++ b' ' ∷ tail
          → push_item lua atoi malloc_ok item (c ∷ s) st ≡ push_word item st
    unfolding split_space
    push_item-more c s tail st e t =
        push_item-cut (c ∷ s) (split_space (c ∷ s)).0 tail st (rw (split_space, e) (λ same. cc)) t

    push_items_lem :
        (fuel nargs c : ℕ) (s : List ℕ) (st : State)
        → (c == b' ') ≡ false
        → length (c ∷ s) < fuel
        → push_items lua atoi malloc_ok fuel nargs (c ∷ s) st
          ≡ done (nargs + length (words (c ∷ s)), push_words (words (c ∷ s)) st)
    unfolding push_items push_words
    push_items_lem zero nargs c s st e lt = absurd (omega arith)
    push_items_lem (suc fuel) nargs c s st e lt = elim (words-Cut c s e) [
      | last p t w ↦
          let item = (split_space (c ∷ s)).0 in
          rw (push_items, p, w, push_item-last (c ∷ s) item st t)
      | more tail p t shorter w ↦
          let item = (split_space (c ∷ s)).0 in
          elim (skip_spaces-cases tail) [
            | inl blank ↦
                rw (push_items, p, blank, w, words_blank tail blank, push_item-more c s tail st e t)
            | inr (c', s', begins, e') ↦
                let ih =
                  push_items_lem fuel (nargs + 1) c' s' (push_word item st) e'
                    (omega (arith, length-skip_spaces tail, ap length begins)) in
                rw
                  (
                    push_items,
                    p,
                    begins,
                    w,
                    words_begin tail c' s' begins,
                    push_item-more c s tail st e t,
                  )
                  (ih
                    ∙ ap (λ n. done (n, push_words (words (c' ∷ s')) (push_word item st)))
                        (omega arith))
          ]
    ]

    -- If `atoi` stops at a space: whatever the command, `interp_eval` does not run out of fuel; it
    -- calls `eval` with the words of the command, a word of digits as a number, and returns a copy
    -- of the message; a command of spaces does nothing.
    pub interp_eval_lem :
        (cmd : List ℕ) (st : State)
        → interp_eval lua atoi malloc_ok cmd st ≡ eval_words (words cmd) st
    unfolding interp_eval eval_words call_eval
    interp_eval_lem cmd st = elim (skip_spaces-cases cmd) [
      | inl blank ↦ rw (interp_eval, blank, words_blank cmd blank)
      | inr (c, s, begins, e) ↦
          let (w, ws, there) = words_nonblank c s e in
          let pushed =
            push_items_lem (suc (length (c ∷ s))) 0 c s (getglobal (codes "eval") st) e
              (omega arith) in
          rw (
            interp_eval,
            begins,
            words_begin cmd c s begins,
            pushed,
            there,
            add.zero (suc (length ws)),
          )
    ]
