-- ===== src/BoardText.antt =====
-- src/board.c: boards as character strings. A string is the list of its bytes before the
-- terminator, a null pointer is `none`. A set of digits is a number below 512.
pub mod Laws
pub mod Format
use gtksudoku.Prelude.{ℕ, zero, suc, ◌+◌, ◌-◌, ◌%◌, ◌^◌, Bool, ◌&&◌, ◌||◌, Option, none, some}
use gtksudoku.Prelude.{List, [], ◌∷◌, leb, ◌==◌, if◌then◌else◌, ℤ, pos, ◌==ℤ◌}
use gtksudoku.Constants.{digits, all}

unfoldable pub isboardchar : ℕ → Bool
isboardchar c = c == b'.' || leb b'1' c && leb c b'9'

-- The width of `size_t`.
abbrev pub size_mod : ℕ
size_mod = 2 ^ 64

-- The loop of `boardlen`, at the count `n`.
unfoldable pub boardlen_from : ℕ → List ℕ → ℕ
boardlen_from n [] = n
boardlen_from n (c ∷ s) = boardlen_from (if isboardchar c then (n + 1) % size_mod else n) s

unfoldable pub boardlen : Option (List ℕ) → ℕ
unfolding boardlen_from
boardlen none = 0
boardlen (some s) = boardlen_from 0 s

unfoldable pub boardchar2val : ℕ → ℕ
boardchar2val c = if leb b'1' c && leb c b'9' then 2 ^ (c - b'1') else all

-- The loop of `val2boardchar`, from digit `d` with `left` digits to go.
unfoldable pub val2boardchar_from : ℕ → ℕ → ℤ → ℕ
val2boardchar_from zero d val = b'.'
val2boardchar_from (suc left) d val =
    let rest = val2boardchar_from left (d + 1) val in if val ==ℤ pos (2 ^ d) then b'1' + d else rest

unfoldable pub val2boardchar : ℤ → ℕ
unfolding val2boardchar_from
val2boardchar val = val2boardchar_from digits 0 val
