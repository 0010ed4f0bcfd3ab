-- ===== src/Tools/Bin2c.antt =====
-- src/bin2c.c: turns a file into a C source with its bytes in an array. The bytes are those that
-- `getchar` returns, below 256. `PACKAGE_NAME` and `VERSION` only reach the version message.
pub mod Body
pub mod Names
pub mod Runs
use gtksudoku.Prelude.{ℕ, zero, suc, ◌+◌, ◌/◌, ◌%◌, Bool, ◌&&◌, ◌||◌, not, Option, none, some}
use gtksudoku.Prelude.{List, [], ◌∷◌, ◌++◌, ◌==◌, leb, ltb, if◌then◌else◌}
use gtksudoku.Tools.Files.{codes, Name, Files, truncate, Run, stop, usage, version, bad_arg_count}
use gtksudoku.Tools.Files.{perror}

-- `COLUMNS`
abbrev pub columns : ℕ
columns = 18

-- `isalpha`, `isdigit` and `isalnum` of <ctype.h>, in the "C" locale.
unfoldable pub isalpha : ℕ → Bool
isalpha c = leb b'a' c && leb c b'z' || leb b'A' c && leb c b'Z'

unfoldable pub isdigit : ℕ → Bool
isdigit c = leb b'0' c && leb c b'9'

unfoldable pub isalnum : ℕ → Bool
unfolding isalpha isdigit
isalnum c = isalpha c || isdigit c

-- The loop of `emit_name` behind the first character.
unfoldable pub emit_rest : Name → List ℕ
emit_rest [] = []
emit_rest (c ∷ s) = (if isalnum c then c else b'_') ∷ emit_rest s

unfoldable pub emit_name : Name → List ℕ
unfolding emit_rest
emit_name [] = b'_' ∷ []
emit_name (c ∷ s) = (if isalpha c then c else b'_') ∷ emit_rest s

-- `printf("%3d,", n)` for a byte: its decimal digits behind blanks, in three places.
unfoldable pub print_item : ℕ → List ℕ
print_item n =
    (if ltb n 100 then b' ' else b'0' + n / 100)
    ∷ (if ltb n 10 then b' ' else b'0' + n / 10 % 10)
    ∷ (b'0' + n % 10)
    ∷ b','
    ∷ []

-- The loop of `emit` over the input, at a column.
unfoldable pub emit_body : ℕ → List ℕ → List ℕ
emit_body col [] = codes "\n};\n"
emit_body col (ch ∷ s) =
    (if leb columns col then codes "\n  " else [])
    ++ print_item ch
    ++ emit_body ((if leb columns col then 0 else col) + 1) s

-- `emit`: what it prints for a name and an input.
unfoldable pub emit : Name → List ℕ → List ℕ
unfolding emit_name emit_body
emit name input =
    codes "static const char "
    ++ emit_name name
    ++ codes "_source[] = \""
    ++ name
    ++ codes "\";\n\n"
    ++ codes "static const unsigned char "
    ++ emit_name name
    ++ codes "_bytes[] = {"
    ++ emit_body columns input

-- What `getopt(argc, argv, "n:o:vh")` answers before it answers -1.
pub data Opt : Type 0 where
  name output : Name → Opt
  show_version help unknown : Opt

abbrev pub read_name : Name → Files → List ℕ
read_name input files = elim (files.contents input) [ none ↦ [] | some bytes ↦ bytes ]

-- The part of `main` behind the options.
unfoldable pub open_files : Files → List Name → Option Name → Option Name → Run
open_files files [] as_name out = stop 1 (bad_arg_count ∷ usage ∷ [])
open_files files (input ∷ other ∷ rest) as_name out = stop 1 (bad_arg_count ∷ usage ∷ [])
open_files files (input ∷ []) as_name out =
    let emit_from =
      λ (f : Files). emit (elim as_name [ none ↦ input | some n ↦ n ]) (read_name input f) in
    elim (files.contents input) [
      | none ↦ stop 1 (perror input ∷ [])
      | some _ ↦ elim out [
        | none ↦ record { status = 0; target = none; output = emit_from files; messages = [] }
        | some o ↦
            (if not (files.writable o) then stop 1 (perror o ∷ []) else record {
              status = 0;
              target = some o;
              output = emit_from (truncate files o);
              messages = [];
            })
      ]
    ]

-- `main`, with the loop over the options.
unfoldable pub main_from : Files → List Opt → List Name → Option Name → Option Name → Run
unfolding open_files
main_from files [] names as_name out = open_files files names as_name out
main_from files (name n ∷ opts) names as_name out = main_from files opts names (some n) out
main_from files (output o ∷ opts) names as_name out = main_from files opts names as_name (some o)
main_from files (show_version ∷ opts) names as_name out = stop 0 (version ∷ [])
main_from files (help ∷ opts) names as_name out = stop 0 (usage ∷ [])
main_from files (unknown ∷ opts) names as_name out = stop 1 (usage ∷ [])

unfoldable pub main : Files → List Opt → List Name → Run
unfolding main_from
main files opts names = main_from files opts names none none
