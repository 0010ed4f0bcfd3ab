-- ===== src/Constants.antt =====
-- The constants of src/gtksudoku.h.
use gtksudoku.Prelude.{ℕ, ◌-◌, ◌*◌, ◌^◌}

abbrev pub sides : ℕ
sides = 3

abbrev pub digits : ℕ
digits = sides * sides

-- The set of all digits: bit d stands for digit d + 1.
abbrev pub all : ℕ
all = 2 ^ digits - 1

-- `SUDOKU_BOARD_MIN_ASPECT` and `SUDOKU_BOARD_MAX_ASPECT`, in hundredths.
abbrev pub min_aspect : ℕ
min_aspect = 80

abbrev pub max_aspect : ℕ
max_aspect = 125
