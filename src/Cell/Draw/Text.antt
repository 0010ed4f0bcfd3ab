-- ===== src/Cell/Draw/Text.antt =====
-- The text of a cell: `scale_zero` and `draw_centered` of src/sudokucell.c. The lengths that cairo
-- measures are whole numbers of some small unit, and a quotient is a pair.
use gtksudoku.Prelude.{ℕ, ◌*◌}

-- `cairo_text_extents_t`, as far as it is used; the bearings are those of the text to the left of
-- its origin and above it.
pub record Extents : Type 0 where
  pub width : ℕ
  pub height : ℕ
  pub x_bearing : ℕ
  pub y_bearing : ℕ

-- A quotient of two lengths.
pub record Ratio : Type 0 where
  pub num : ℕ
  pub den : ℕ

-- `DELTA`, one half.
abbrev pub delta : Ratio
delta = record { num = 1; den = 2 }

-- `scale_zero`: the factors of `cairo_scale`, for the size of the cell and the extents of a zero.
unfoldable pub scale_zero : ℕ → ℕ → Extents → Ratio × Ratio
scale_zero cell_w cell_h zero = (
  record { num = delta.num * cell_w; den = delta.den * zero.height },
  record { num = delta.num * cell_h; den = delta.den * zero.height },
)
