-- ===== src/Tools/Bin2c/Body.antt =====
-- The array that src/bin2c.c writes holds the bytes of its input, on lines of bounded length.
use gtksudoku.Prelude.{ℕ, ◌+◌, ◌-◌, ◌*◌, ◌<◌, ◌≤◌, ◌≡◌, refl, ap, ◌∙◌, Bool, true, ◌&&◌}
use gtksudoku.Prelude.{List, [], ◌∷◌, ◌++◌, ◌==◌, leb, if◌then◌else◌, arith, Bool-cases, inl, inr}
use gtksudoku.Tools.Files.{codes}
use gtksudoku.Tools.Bin2c.{columns, isdigit, print_item, emit_body}

abbrev pub AllBytes : List ℕ → Type 0
AllBytes [] = Unit
AllBytes (c ∷ s) = (c < 256) × AllBytes s

-- How a C compiler reads the array: digits add up to a number, a comma ends it, the rest is skipped.
unfoldable pub decode : ℕ → List ℕ → List ℕ
decode acc [] = []
decode acc (c ∷ s) =
    let digit = decode (10 * acc + (c - b'0')) s in
    let item = decode 0 s in
    let skip = decode acc s in if isdigit c then digit else if c == b',' then acc ∷ item else skip

decode-print_item :
    (n : ℕ) (rest : List ℕ) → n < 256 → decode 0 (print_item n ++ rest) ≡ n ∷ decode 0 rest
unfolding decode print_item isdigit
decode-print_item n rest h = ground arith

decode-break : (rest : List ℕ) → decode 0 (codes "\n  " ++ rest) ≡ decode 0 rest
unfolding decode isdigit
decode-break rest = refl

decode-end : decode 0 (codes "\n};\n") ≡ []
unfolding decode isdigit
decode-end = refl

-- Reading the array back gives the input, if that is bytes, from whatever column it was written.
pub decode-emit_body : (s : List ℕ) (col : ℕ) → AllBytes s → decode 0 (emit_body col s) ≡ s
unfolding emit_body
decode-emit_body [] col h = decode-end
decode-emit_body (ch ∷ s) col (h, hs) = elim (Bool-cases (leb columns col)) [
  | inl e ↦ rw e (
      decode-break (print_item ch ++ emit_body 1 s)
      ∙ decode-print_item ch (emit_body 1 s) h
      ∙ ap (λ t. ch ∷ t) (decode-emit_body s 1 hs))
  | inr e ↦ rw e (
      decode-print_item ch (emit_body (col + 1) s) h
      ∙ ap (λ t. ch ∷ t) (decode-emit_body s (col + 1) hs))
]

-- No line has more than 18 items; `n` are on the line already.
unfoldable pub fits : ℕ → List ℕ → Bool
fits n [] = leb n 18
fits n (c ∷ s) =
    let rest = fits (if c == b'\n' then 0 else if c == b',' then n + 1 else n) s in leb n 18 && rest

fits-print_item :
    (ch n : ℕ) (rest : List ℕ)
    → ch < 256
    → n < columns
    → fits (n + 1) rest ≡ true
    → fits n (print_item ch ++ rest) ≡ true
unfolding fits print_item
fits-print_item ch n rest h lt r = ground arith

fits-break :
    (n : ℕ) (rest : List ℕ)
    → n ≤ columns
    → fits 0 rest ≡ true
    → fits n (codes "\n  " ++ rest) ≡ true
unfolding fits
fits-break n rest h r = ground arith

fits-end : (n : ℕ) → n ≤ columns → fits n (codes "\n};\n") ≡ true
unfolding fits
fits-end n h = ground arith

-- If the input is bytes and the column is at most 18, no line of the array has more than 18 items,
-- counting those before the column.
pub fits-emit_body :
    (s : List ℕ) (col : ℕ) → AllBytes s → col ≤ 18 → fits col (emit_body col s) ≡ true
unfolding emit_body
fits-emit_body [] col h le = fits-end col le
fits-emit_body (ch ∷ s) col (h, hs) le = elim (Bool-cases (leb columns col)) [
  | inl e ↦ rw e (
      fits-break col (print_item ch ++ emit_body 1 s) le (
        fits-print_item ch 0 (emit_body 1 s) h (omega arith) (fits-emit_body s 1 hs (omega arith))))
  | inr e ↦ rw e (
      fits-print_item ch col (emit_body (col + 1) s) h (ground arith)
        (fits-emit_body s (col + 1) hs (ground arith)))
]
