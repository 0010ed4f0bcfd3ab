-- ===== src/Tools/U2d/Laws.antt =====
-- What src/u2d.c makes of a text.
use gtksudoku.Prelude.{ℕ, ◌≡◌, refl, Bool, true, false, not, ◌&&◌, Option, none, some}
use gtksudoku.Prelude.{List, [], ◌∷◌, ◌==◌, if◌then◌else◌, arith, Option-cases, inl, inr, ◌⊎◌}
use gtksudoku.Tools.Files.{Files, Name, Run, truncate}
use gtksudoku.Tools.U2d.{
  convert, Opt, output, help, unknown, main_from, main, open_input, write_output, read_name,
}

-- Converting a text a second time changes nothing.
pub convert-convert : (s : List ℕ) → convert (convert s) ≡ convert s
unfolding convert
convert-convert [] = refl
convert-convert (c ∷ s) = ground (arith, convert-convert s)

-- A text without its carriage returns.
unfoldable pub plain : List ℕ → List ℕ
plain [] = []
plain (c ∷ s) = let rest = plain s in if c == b'\r' then rest else c ∷ rest

-- A text and its conversion are the same but for carriage returns.
pub plain-convert : (s : List ℕ) → plain (convert s) ≡ plain s
unfolding convert plain
plain-convert [] = refl
plain-convert (c ∷ s) = ground (arith, plain-convert s)

-- A DOS text: carriage returns and line feeds stand in pairs only. The flag says whether the byte
-- before was a carriage return.
unfoldable pub is_dos : Bool → List ℕ → Bool
is_dos after_cr [] = not after_cr
is_dos true (c ∷ s) = let rest = is_dos false s in (c == b'\n') && rest
is_dos false (c ∷ s) = let rest = is_dos (c == b'\r') s in if c == b'\n' then false else rest

-- What is written is a DOS text, whatever is read.
pub convert-is_dos : (s : List ℕ) → is_dos false (convert s) ≡ true
unfolding convert is_dos
convert-is_dos [] = refl
convert-is_dos (c ∷ s) = ground (arith, convert-is_dos s)

-- What a run leaves behind: a DOS text, and nothing at all if it fails.
abbrev pub IsClean : Run → Type 0
IsClean run = (is_dos false run.output ≡ true) × ((run.status ≡ 0) ⊎ (run.output ≡ []))

write_output-IsClean :
    (files : Files) (out : Option Name) (input : Files → List ℕ)
    → IsClean (write_output files out input)
unfolding write_output is_dos
write_output-IsClean files none input = (convert-is_dos (input files), inl refl)
write_output-IsClean files (some out) input =
    ground (arith, convert-is_dos (input (truncate files out)))

open_input-IsClean :
    (files : Files) (names : List Name) (out : Option Name) → IsClean (open_input files names out)
unfolding open_input is_dos
open_input-IsClean files [] out = write_output-IsClean files out _
open_input-IsClean files (name ∷ []) out = elim (Option-cases (files.contents name)) [
  | inl e ↦ ground arith
  | inr (s, e) ↦ ground (arith, write_output-IsClean files out (read_name name))
]
open_input-IsClean files (name ∷ other ∷ names) out = (refl, inr refl)

main_from-IsClean :
    (files : Files) (opts : List Opt) (names : List Name) (out : Option Name)
    → IsClean (main_from files opts names out)
unfolding main_from is_dos
main_from-IsClean files [] names out = open_input-IsClean files names out
main_from-IsClean files (output name ∷ opts) names out =
    main_from-IsClean files opts names (some name)
main_from-IsClean files (help ∷ opts) names out = (refl, inr refl)
main_from-IsClean files (unknown ∷ opts) names out = (refl, inr refl)

-- Whatever the options, the files and the input: what the program writes is a DOS text, and a run
-- that fails writes nothing.
pub main-IsClean :
    (files : Files) (opts : List Opt) (names : List Name) → IsClean (main files opts names)
unfolding main
main-IsClean files opts names = main_from-IsClean files opts names none

-- With the same file for input and output, which can be read and written, the text is lost: the
-- run succeeds and writes nothing.
pub main_in_place :
    (files : Files) (name : Name) {s : List ℕ}
    → files.contents name ≡ some s
    → files.writable name ≡ true
    → files.same_file name name ≡ true
    → main files (output name ∷ []) (name ∷ [])
      ≡ record { status = 0; target = some name; output = []; messages = [] }
unfolding main write_output truncate convert
main_in_place files name e w same = ground arith
