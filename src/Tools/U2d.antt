-- ===== src/Tools/U2d.antt =====
-- src/u2d.c: adds carriage returns to a text file.
pub mod Laws
use gtksudoku.Prelude.{ℕ, Option, none, some, List, [], ◌∷◌, ◌==◌, if◌then◌else◌, not, Bool, true}
use gtksudoku.Tools.Files.{Name, Files, truncate, usage, bad_arg_count, perror, Run, stop}

-- What `getopt(argc, argv, "o:h")` answers before it answers -1.
pub data Opt : Type 0 where
  output : Name → Opt
  help unknown : Opt

-- The loop that copies the input: `putc` for each case of the switch.
unfoldable pub convert : List ℕ → List ℕ
convert [] = []
convert (c ∷ s) =
    let rest = convert s in
    if c == b'\r' then rest else if c == b'\n' then b'\r' ∷ b'\n' ∷ rest else c ∷ rest

-- `freopen(output, "w", stdout)`, where an output is asked for, and the copying of what is then
-- read under the input's name.
unfoldable pub write_output : Files → Option Name → (Files → List ℕ) → Run
write_output files none input = record {
  status = 0;
  target = none;
  output = convert (input files);
  messages = [];
}
write_output files (some out) input =
    if not (files.writable out) then stop 1 (perror out ∷ []) else record {
      status = 0;
      target = some out;
      output = convert (input (truncate files out));
      messages = [];
    }

abbrev pub read_name : Name → Files → List ℕ
read_name name files = elim (files.contents name) [ none ↦ [] | some bytes ↦ bytes ]

-- The switch on the number of arguments behind the options.
unfoldable pub open_input : Files → List Name → Option Name → Run
unfolding write_output
open_input files [] out = write_output files out (λ f. f.stdin)
open_input files (name ∷ []) out = elim (files.contents name) [
  | none ↦ stop 1 (perror name ∷ [])
  | some _ ↦ write_output files out (read_name name)
]
open_input files (name ∷ other ∷ names) out = stop 1 (bad_arg_count ∷ usage ∷ [])

-- `main`, with the loop over the options.
unfoldable pub main_from : Files → List Opt → List Name → Option Name → Run
unfolding open_input
main_from files [] names out = open_input files names out
main_from files (output name ∷ opts) names out = main_from files opts names (some name)
main_from files (help ∷ opts) names out = stop 0 (usage ∷ [])
main_from files (unknown ∷ opts) names out = stop 1 (usage ∷ [])

unfoldable pub main : Files → List Opt → List Name → Run
unfolding main_from
main files opts names = main_from files opts names none
