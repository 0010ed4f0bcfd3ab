-- ===== src/BoardText/Laws.antt =====
-- The conversions of src/board.c between characters and sets of digits, and the length of a board.
use gtksudoku.Prelude.{ℕ, zero, suc, ◌+◌, ◌%◌, ◌^◌, ◌<◌, ◌≤◌, ◌≡◌, refl, ◌∙◌, ◌≢◌, ◌⊎◌, inl, inr}
use gtksudoku.Prelude.{
  sym, ap, true, false, ◌||◌, not, ltb, leb, none, some, List, [], ◌∷◌, length, count_if, arith,
}
use gtksudoku.Prelude.{count_if-le-length, every_below, every_below_lem, Bool-cases, ◌==◌, ==→≡}
use gtksudoku.Prelude.{ℤ, pos, ◌==ℤ◌, ==ℤ_refl, ==ℤ→≡}
use gtksudoku.Constants.{digits, all}
use gtksudoku.BoardText.{
  isboardchar, size_mod, boardlen_from, boardlen, boardchar2val, val2boardchar_from, val2boardchar,
}

pub isboardchar-lt : (c : ℕ) → isboardchar c ≡ true → c < 58
unfolding isboardchar
isboardchar-lt c h = ground arith

roundtrip_table :
    every_below (λ c. not (isboardchar c) || val2boardchar (pos (boardchar2val c)) == c) 58 ≡ true
unfolding every_below isboardchar val2boardchar boardchar2val
roundtrip_table = refl

-- Every character of a board survives the way to a set of digits and back.
pub val2boardchar-boardchar2val :
    (c : ℕ) → isboardchar c ≡ true → val2boardchar (pos (boardchar2val c)) ≡ c
val2boardchar-boardchar2val c h =
    let row = every_below_lem _ 58 roundtrip_table c (isboardchar-lt c h) in ==→≡ _ c (rw h at row)

-- Not the digit `d` at hand, and none of those behind it.
not_from :
    (left d : ℕ) (v : ℤ)
    → (v ==ℤ pos (2 ^ d)) ≡ false
    → ((k : ℕ) → d + 1 ≤ k → k < d + 1 + left → v ≢ pos (2 ^ k))
    → (k : ℕ) → d ≤ k
    → k < d + suc left
    → v ≢ pos (2 ^ k)
not_from left d v e never k p q s = elim (Bool-cases (k == d)) [
  | inl same ↦ cc (
    sym e,
    ap (λ t. v ==ℤ pos (2 ^ t)) (==→≡ k d same),
    ap (λ t. t ==ℤ pos (2 ^ k)) s,
    ==ℤ_refl (pos (2 ^ k)),
  )
  | inr other ↦ never k (ground arith) (omega arith) s
]

val2boardchar_from-cases :
    (left d : ℕ) (v : ℤ)
    → ((k : ℕ) × (d ≤ k)
        × (k < d + left)
        × (v ≡ pos (2 ^ k))
        × (val2boardchar_from left d v ≡ b'1' + k))
      ⊎ (((k : ℕ) → d ≤ k → k < d + left → v ≢ pos (2 ^ k)) × (val2boardchar_from left d v ≡ b'.'))
unfolding val2boardchar_from
val2boardchar_from-cases zero d v = inr (λ k p q. absurd (omega arith), refl)
val2boardchar_from-cases (suc left) d v = elim (Bool-cases (v ==ℤ pos (2 ^ d))) [
  | inl e ↦ inl (d, omega arith, omega arith, ==ℤ→≡ v _ e, rw e)
  | inr e ↦ elim (val2boardchar_from-cases left (d + 1) v) [
    | inl (k, p, q, s, r) ↦ inl (k, omega arith, omega arith, s, rw e r)
    | inr (never, r) ↦ inr (not_from left d v e never, rw e r)
  ]
]

-- What a set of digits prints as: the digit of a singleton, and a period for any other value.
pub val2boardchar_lem :
    (v : ℤ)
    → ((d : ℕ) × (d < digits) × (v ≡ pos (2 ^ d)) × (val2boardchar v ≡ b'1' + d))
      ⊎ (((d : ℕ) → d < digits → v ≢ pos (2 ^ d)) × (val2boardchar v ≡ b'.'))
unfolding val2boardchar
val2boardchar_lem v = elim (val2boardchar_from-cases digits 0 v) [
  | inl (d, p, q, s, r) ↦ inl (d, q, s, r)
  | inr (never, r) ↦ inr (λ d q. never d (omega arith) q, r)
]

-- Whatever the value, what is printed is a valid cell descriptor.
pub val2boardchar-isboardchar : (v : ℤ) → isboardchar (val2boardchar v) ≡ true
unfolding isboardchar
val2boardchar-isboardchar v = ground (arith, val2boardchar_lem v)

singleton_table : every_below (λ d. boardchar2val (b'1' + d) == 2 ^ d) digits ≡ true
unfolding every_below boardchar2val
singleton_table = refl

le_table : every_below (λ c. leb (boardchar2val c) all) 58 ≡ true
unfolding every_below boardchar2val
le_table = refl

pub boardchar2val-le : (c : ℕ) → boardchar2val c ≤ all
unfolding boardchar2val
boardchar2val-le c = elim (Bool-cases (ltb c 58)) [
  | inl e ↦ let row = every_below_lem _ 58 le_table c (ground arith) in ground arith
  | inr e ↦ ground arith
]

-- A set of digits survives the way to a character and back if it is a singleton; any other value
-- comes back as the set of all digits.
pub boardchar2val-val2boardchar :
    (v : ℤ)
    → ((d : ℕ) × (d < digits) × (v ≡ pos (2 ^ d)) × (boardchar2val (val2boardchar v) ≡ 2 ^ d))
      ⊎ (((d : ℕ) → d < digits → v ≢ pos (2 ^ d)) × (boardchar2val (val2boardchar v) ≡ all))
unfolding boardchar2val
boardchar2val-val2boardchar v = elim (val2boardchar_lem v) [
  | inl (d, q, s, r) ↦ inl (d, q, s, rw r (==→≡ _ _ (every_below_lem _ digits singleton_table d q)))
  | inr (never, r) ↦ inr (never, rw r)
]

boardlen_from_lem :
    (s : List ℕ) (n : ℕ)
    → n < size_mod
    → boardlen_from n s ≡ (n + count_if isboardchar s) % size_mod
unfolding boardlen_from
boardlen_from_lem [] n h = omega arith
boardlen_from_lem (c ∷ s) n h = elim (Bool-cases (isboardchar c)) [
  | inl e ↦ rw e (omega (arith, boardlen_from_lem s ((n + 1) % size_mod) (omega arith)))
  | inr e ↦ rw e (omega (arith, boardlen_from_lem s n h))
]

-- The length of a board is the number of its cell descriptors, modulo the width of `size_t`.
pub boardlen_mod : (s : List ℕ) → boardlen (some s) ≡ count_if isboardchar s % size_mod
unfolding boardlen
boardlen_mod s = boardlen_from_lem s 0 (omega arith) ∙ omega arith

-- For a string shorter than `size_t` can count, the length of a board is the number of its cell
-- descriptors: the other characters do not count.
pub boardlen_lem : (s : List ℕ) → length s < size_mod → boardlen (some s) ≡ count_if isboardchar s
boardlen_lem s h = omega (arith, boardlen_mod s, count_if-le-length isboardchar s)

pub boardlen-null : boardlen none ≡ 0
unfolding boardlen
boardlen-null = refl
