-- ===== src/Interp/Words.antt =====
-- The words of a command, and the two scans by which src/interp.c finds them.
use gtksudoku.Prelude.{ℕ, ◌<◌, ◌≤◌, ◌≡◌, refl, sym, ap, ◌∙◌, none, some, List, [], ◌∷◌}
use gtksudoku.Prelude.{
  ◌++◌, length, ◌==◌, if◌then◌else◌, Bool-cases, inl, inr, arith, ◌⊎◌, ==→≡, false,
}
use gtksudoku.Interp.{skip_spaces, split_space}

-- A word in front of others, if it has characters.
abbrev pub flush : List ℕ → List (List ℕ) → List (List ℕ)
flush [] ws = ws
flush (c ∷ w) ws = (c ∷ w) ∷ ws

-- The characters up to the first space, and the words behind it.
unfoldable pub first_word : List ℕ → List ℕ × List (List ℕ)
first_word [] = ([], [])
first_word (c ∷ s) =
    let (w, ws) = first_word s in if c == b' ' then ([], flush w ws) else (c ∷ w, ws)

-- The words of a text: its longest parts without a space.
unfoldable pub words : List ℕ → List (List ℕ)
unfolding first_word
words s = let (w, ws) = first_word s in flush w ws

pub words-skip_spaces : (s : List ℕ) → words (skip_spaces s) ≡ words s
unfolding words skip_spaces
words-skip_spaces [] = refl
words-skip_spaces (c ∷ s) = ground (arith, words-skip_spaces s)

-- The scan for a separator gives the first word, and leaves the text of the others.
split_space-words :
    (s : List ℕ)
    → (((split_space s).1 ≡ none)
        × (s ≡ (split_space s).0)
        × (first_word s ≡ ((split_space s).0, [])))
      ⊎ ((tail : List ℕ) × ((split_space s).1 ≡ some tail)
          × (s ≡ (split_space s).0 ++ b' ' ∷ tail)
          × (length tail < length s)
          × (first_word s ≡ ((split_space s).0, words tail)))
unfolding split_space words
split_space-words [] = inl (refl, refl, refl)
split_space-words (c ∷ s) = elim (Bool-cases (c == b' ')) [
  | inl e ↦ inr (s, rw e, rw (e, ==→≡ c b' ' e), omega arith, rw e)
  | inr e ↦ elim (split_space-words s) [
    | inl (p, t, q) ↦ inl (rw (e, p), rw e (ap (λ r. c ∷ r) t), rw (e, q))
    | inr (tail, p, t, lt, q) ↦
        inr (tail, rw (e, p), rw e (ap (λ r. c ∷ r) t), omega arith, rw (e, q))
  ]
]

pub length-skip_spaces : (s : List ℕ) → length (skip_spaces s) ≤ length s
unfolding skip_spaces
length-skip_spaces [] = omega arith
length-skip_spaces (c ∷ s) = ground (arith, length-skip_spaces s)

-- A text that begins with a word: the scan cuts off that word, and the words of the tail are left.
pub data Cut (s : List ℕ) : Type 0 where
  last : (split_space s).1 ≡ none → s ≡ (split_space s).0 → words s ≡ (split_space s).0 ∷ [] → Cut s
  more :
      (tail : List ℕ)
      → (split_space s).1 ≡ some tail
      → s ≡ (split_space s).0 ++ b' ' ∷ tail
      → length tail < length s
      → words s ≡ (split_space s).0 ∷ words tail
      → Cut s

pub words-Cut : (c : ℕ) (s : List ℕ) → (c == b' ') ≡ false → Cut (c ∷ s)
unfolding words split_space
words-Cut c s e = elim (split_space-words s) [
  | inl (p, t, q) ↦ last (rw (e, p)) (rw e (ap (λ r. c ∷ r) t)) (rw (e, q))
  | inr (tail, p, t, lt, q) ↦
      more tail (rw (e, p)) (rw e (ap (λ r. c ∷ r) t)) (omega arith) (rw (e, q))
]

-- Behind the leading spaces there is nothing, or a word begins.
pub skip_spaces-cases :
    (s : List ℕ)
    → (skip_spaces s ≡ [])
      ⊎ ((c : ℕ) × (t : List ℕ) × (skip_spaces s ≡ c ∷ t) × ((c == b' ') ≡ false))
unfolding skip_spaces
skip_spaces-cases [] = inl refl
skip_spaces-cases (c ∷ s) = elim (Bool-cases (c == b' ')) [
  | inl e ↦ rw e (skip_spaces-cases s)
  | inr e ↦ inr (c, s, rw e, e)
]

pub words_blank : (s : List ℕ) → skip_spaces s ≡ [] → words s ≡ []
unfolding words
words_blank s e = sym (words-skip_spaces s) ∙ ap words e

pub words_begin :
    (s : List ℕ) (c : ℕ) (t : List ℕ) → skip_spaces s ≡ c ∷ t → words s ≡ words (c ∷ t)
words_begin s c t e = sym (words-skip_spaces s) ∙ ap words e

pub words_nonblank :
    (c : ℕ) (s : List ℕ)
    → (c == b' ') ≡ false
    → (w : List ℕ) × (ws : List (List ℕ)) × (words (c ∷ s) ≡ w ∷ ws)
words_nonblank c s e = elim (words-Cut c s e) [
  | last p t w ↦ ((split_space (c ∷ s)).0, [], w)
  | more tail p t shorter w ↦ ((split_space (c ∷ s)).0, words tail, w)
]
