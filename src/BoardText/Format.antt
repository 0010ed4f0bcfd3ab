-- ===== src/BoardText/Format.antt =====
-- src/board.h: boards as character strings, as an interface.
use gtksudoku.Prelude.{
  ℕ, ◌≡◌, ◌≢◌, ◌<◌, ◌⊎◌, ◌^◌, Bool, true, Option, some, List, ℤ, pos, length, count_if,
}
use gtksudoku.Constants.{digits, all}
use gtksudoku.BoardText.{isboardchar, boardlen, boardchar2val, val2boardchar, size_mod}
use gtksudoku.BoardText.Laws.{
  val2boardchar-boardchar2val, boardchar2val-val2boardchar, boardlen_lem,
}
use gtksudoku.BoardText.Laws.{val2boardchar-isboardchar}

pub record BoardFormat : Type 0 where
  pub isboardchar : ℕ → Bool
  pub boardlen : Option (List ℕ) → ℕ
  pub boardchar2val : ℕ → ℕ
  pub val2boardchar : ℤ → ℕ

-- What the users of a format rely on: the length of a string counts its cell descriptors; what is
-- written is a cell descriptor; a descriptor survives the way to a set and back, and a set does just
-- where it has one digit: any other is written like the set of all digits.
pub record FormatLaws (f : BoardFormat) : Type 0 where
  pub counts : (s : List ℕ) → length s < size_mod → f.boardlen (some s) ≡ count_if f.isboardchar s
  pub written : (v : ℤ) → f.isboardchar (f.val2boardchar v) ≡ true
  pub read_write : (c : ℕ) → f.isboardchar c ≡ true → f.val2boardchar (pos (f.boardchar2val c)) ≡ c
  pub write_read :
      (v : ℤ)
      → ((d : ℕ) × (d < digits) × (v ≡ pos (2 ^ d)) × (f.boardchar2val (f.val2boardchar v) ≡ 2 ^ d))
        ⊎ (((d : ℕ) → d < digits → v ≢ pos (2 ^ d)) × (f.boardchar2val (f.val2boardchar v) ≡ all))

-- The functions of src/board.c.
abbrev pub board_format : BoardFormat
board_format = record {
  isboardchar = isboardchar;
  boardlen = boardlen;
  boardchar2val = boardchar2val;
  val2boardchar = val2boardchar;
}

-- The functions of src/board.c are a format of boards.
pub board_format-FormatLaws : FormatLaws board_format
board_format-FormatLaws = record {
  counts = boardlen_lem;
  written = val2boardchar-isboardchar;
  read_write = val2boardchar-boardchar2val;
  write_read = boardchar2val-val2boardchar;
}
