-- ===== src/Tools/Bin2c/Runs.antt =====
-- The runs of src/bin2c.c.
use gtksudoku.Prelude.{ℕ, ◌∙◌, ◌≡◌, refl, ap, Option, none, some, List, [], ◌∷◌, inl, inr}
use gtksudoku.Prelude.{Option-cases, Bool-cases, if◌then◌else◌}
use gtksudoku.Prelude.{Bool, ◌++◌, ◌||◌, ◌&&◌, leb, map}
use gtksudoku.Tools.Files.{codes, Files, Name, Run, truncate}
use gtksudoku.Tools.Bin2c
use gtksudoku.Tools.Bin2c.{Opt, emit, emit_name, emit_rest, emit_body, isalpha, isdigit, isalnum}
use gtksudoku.Tools.Bin2c.{main, main_from, open_files, read_name}

-- The status with which the first option ends the run that does, if there is one.
unfoldable pub ended : List Opt → Option ℕ
ended [] = none
ended (Bin2c.name n ∷ opts) = ended opts
ended (Bin2c.output o ∷ opts) = ended opts
ended (Bin2c.show_version ∷ opts) = some 0
ended (Bin2c.help ∷ opts) = some 0
ended (Bin2c.unknown ∷ opts) = some 1

-- The arguments of the options `-n`, and of the options `-o`.
unfoldable pub names_given : List Opt → List Name
names_given [] = []
names_given (Bin2c.name n ∷ opts) = n ∷ names_given opts
names_given (_ ∷ opts) = names_given opts

unfoldable pub outputs_given : List Opt → List Name
outputs_given [] = []
outputs_given (Bin2c.output o ∷ opts) = o ∷ outputs_given opts
outputs_given (_ ∷ opts) = outputs_given opts

-- The last of some names, or what stands before them.
unfoldable pub last_of : Option Name → List Name → Option Name
last_of before [] = before
last_of before (n ∷ ns) = last_of (some n) ns

-- What a character of a name becomes in an identifier.
unfoldable pub letter : ℕ → Bool
letter c = leb b'a' c && leb c b'z' || leb b'A' c && leb c b'Z'

unfoldable pub identifier : Name → List ℕ
unfolding letter
identifier [] = b'_' ∷ []
identifier (c ∷ s) =
    (if letter c then c else b'_')
    ∷ map (λ x. if letter x || leb b'0' x && leb x b'9' then x else b'_') s

-- The source for some bytes under a name: the name as a string, and the array of the bytes.
unfoldable pub source : Name → List ℕ → List ℕ
unfolding identifier
source name bytes =
    codes "static const char "
    ++ identifier name
    ++ codes "_source[] = \""
    ++ name
    ++ codes "\";\n\n"
    ++ codes "static const unsigned char "
    ++ identifier name
    ++ codes "_bytes[] = {"
    ++ emit_body 18 bytes

emit_rest-map :
    (s : Name) → emit_rest s ≡ map (λ x. if letter x || leb b'0' x && leb x b'9' then x else b'_') s
unfolding emit_rest isalnum isalpha isdigit letter
emit_rest-map [] = refl
emit_rest-map (c ∷ s) =
    ap (λ t. (if letter c || leb b'0' c && leb c b'9' then c else b'_') ∷ t) (emit_rest-map s)

emit_name-identifier : (name : Name) → emit_name name ≡ identifier name
unfolding emit_name identifier isalpha letter
emit_name-identifier [] = refl
emit_name-identifier (c ∷ s) = ap (λ t. (if letter c then c else b'_') ∷ t) (emit_rest-map s)

emit-source : (name : Name) (bytes : List ℕ) → emit name bytes ≡ source name bytes
unfolding emit source
emit-source name bytes =
    ap
      (λ n.
        codes "static const char "
        ++ n
        ++ codes "_source[] = \""
        ++ name
        ++ codes "\";\n\n"
        ++ codes "static const unsigned char "
        ++ n
        ++ codes "_bytes[] = {"
        ++ emit_body 18 bytes)
      (emit_name-identifier name)

-- A status, the file that is written, or `none` for the standard output, and what is written.
abbrev pub Ending : Type 0
Ending = ℕ × Option Name × List ℕ

abbrev pub or_name : Option Name → Name → Name
or_name none other = other
or_name (some n) other = n

-- The source for a file under a name, behind the truncation of the file that it goes to.
unfoldable pub source_of : Files → Name → Option Name → Option Name → Ending
unfolding source
source_of files input as_name none =
    (0, none, source (or_name as_name input) (read_name input files))
source_of files input as_name (some out) =
    if files.writable out
    then (0, some out, source (or_name as_name input) (read_name input (truncate files out)))
    else (1, none, [])

unfoldable pub converted : Files → List Name → Option Name → Option Name → Ending
unfolding source_of
converted files (input ∷ []) as_name out = elim (files.contents input) [
  | none ↦ (1, none, [])
  | some bytes ↦ source_of files input as_name out
]
converted files _ as_name out = (1, none, [])

unfoldable pub promised : Files → List Opt → List Name → Option Name → Option Name → Ending
unfolding ended names_given outputs_given last_of converted
promised files opts names as_name out = elim (ended opts) [
  | some status ↦ (status, none, [])
  | none ↦
      converted files names (last_of as_name (names_given opts)) (last_of out (outputs_given opts))
]

abbrev pub ending : Run → Ending
ending run = (run.status, run.target, run.output)

name_lem :
    (as_name : Option Name) (input : Name)
    → (elim as_name [ none ↦ input | some n ↦ n ]) ≡ or_name as_name input
name_lem none input = refl
name_lem (some n) input = refl

emitted :
    (as_name : Option Name) (input : Name) (bytes : List ℕ)
    → emit (elim as_name [ none ↦ input | some n ↦ n ]) bytes ≡ source (or_name as_name input) bytes
emitted as_name input bytes =
    ap (λ n. emit n bytes) (name_lem as_name input) ∙ emit-source (or_name as_name input) bytes

open_files-converted :
    (files : Files) (names : List Name) (as_name out : Option Name)
    → ending (open_files files names as_name out) ≡ converted files names as_name out
unfolding open_files converted source_of
open_files-converted files [] as_name out = refl
open_files-converted files (input ∷ other ∷ rest) as_name out = refl
open_files-converted files (input ∷ []) as_name none = elim (Option-cases (files.contents input)) [
  | inl e ↦ rw (open_files, converted, e) refl
  | inr (s, e) ↦
      rw (open_files, converted, e)
        (ap (λ t. (0, none, t)) (emitted as_name input (read_name input files)))
]
open_files-converted files (input ∷ []) as_name (some out) =
    elim (Option-cases (files.contents input)) [
      | inl e ↦ rw (open_files, converted, e) refl
      | inr (s, e) ↦ elim (Bool-cases (files.writable out)) [
        | inl w ↦
            rw (open_files, converted, e, source_of, w)
              (ap (λ t. (0, some out, t))
                (emitted as_name input (read_name input (truncate files out))))
        | inr w ↦ rw (open_files, converted, e, source_of, w) refl
      ]
    ]

main_from-promised :
    (files : Files) (opts : List Opt) (names : List Name) (as_name out : Option Name)
    → ending (main_from files opts names as_name out) ≡ promised files opts names as_name out
unfolding main_from promised ended names_given outputs_given last_of
main_from-promised files [] names as_name out = open_files-converted files names as_name out
main_from-promised files (Bin2c.name n ∷ opts) names as_name out =
    main_from-promised files opts names (some n) out
main_from-promised files (Bin2c.output o ∷ opts) names as_name out =
    main_from-promised files opts names as_name (some o)
main_from-promised files (Bin2c.show_version ∷ opts) names as_name out = refl
main_from-promised files (Bin2c.help ∷ opts) names as_name out = refl
main_from-promised files (Bin2c.unknown ∷ opts) names as_name out = refl

-- Whatever the options, the names and the files: the first option that asks for the version or the
-- help ends the run with status 0, and one that is unknown with status 1, and nothing is written.
-- Without such an option, a run with one name that can be read writes the source for the bytes of
-- that file, its two declarations in order, with status 0, under the name of the last option `-n`, or its own without one, to the
-- file of the last option `-o`, which is truncated before the bytes are read, or to the standard
-- output without one; if there is no name or more than one, or if a file cannot be opened, the
-- status is 1 and nothing is written.
pub main-promised :
    (files : Files) (opts : List Opt) (names : List Name)
    → let run = main files opts names in
      (run.status, run.target, run.output) ≡ promised files opts names none none
unfolding main
main-promised files opts names = main_from-promised files opts names none none
