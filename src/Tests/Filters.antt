-- ===== src/Tests/Filters.antt =====
-- Runs of the filters of the build.
use gtksudoku.Prelude.{none, ℕ, ◌≡◌, true, false, some, List, [], ◌∷◌, arith}
use gtksudoku.Tools.Files.{codes, Files}
use gtksudoku.Tools.U2d
use gtksudoku.Tools.U2d.{convert}
use gtksudoku.Tools.U2d.Laws.{is_dos, convert-is_dos, IsClean}
use gtksudoku.Tools.U2d.Laws.{main-IsClean}
use gtksudoku.Tools.Bin2c
use gtksudoku.Tools.Bin2c.Runs.{promised, main-promised}
use gtksudoku.Tools.Bin2c.{isalpha, emit_name, emit_body}
use gtksudoku.Tools.Bin2c.Body.{decode, decode-emit_body, fits, fits-emit_body, AllBytes}

abbrev poem : List ℕ
poem = codes "one\ntwo\r\nthree"

-- One file, that can be read and written under every name.
abbrev disk : Files
disk = record {
  contents = λ name. some poem;
  writable = λ name. true;
  same_file = λ a b. true;
  stdin = [];
}

convert-is_dos_example : is_dos false (convert poem) ≡ true
convert-is_dos_example = convert-is_dos poem

main-IsClean_example :
    IsClean (U2d.main disk (U2d.output (codes "out.txt") ∷ []) (codes "README" ∷ []))
main-IsClean_example = main-IsClean disk (U2d.output (codes "out.txt") ∷ []) (codes "README" ∷ [])

abbrev binary : List ℕ
binary = 0 ∷ 7 ∷ 44 ∷ 255 ∷ []

binary-AllBytes : AllBytes binary
binary-AllBytes = (omega arith, (omega arith, (omega arith, (omega arith, tt))))

decode-emit_body_example : decode 0 (emit_body 18 binary) ≡ binary
decode-emit_body_example = decode-emit_body binary 18 binary-AllBytes

fits-emit_body_example : fits 18 (emit_body 18 binary) ≡ true
fits-emit_body_example = fits-emit_body binary 18 binary-AllBytes (omega arith)

main-promised_example :
    let run = Bin2c.main disk (Bin2c.name (codes "x") ∷ []) (codes "README" ∷ []) in
    (run.status, run.target, run.output)
    ≡ promised disk (Bin2c.name (codes "x") ∷ []) (codes "README" ∷ []) none none
main-promised_example = main-promised disk (Bin2c.name (codes "x") ∷ []) (codes "README" ∷ [])
