-- ===== src/Tools/Files.antt =====
-- Files by name, for the filters of the build. `getopt` is the library's: what it answers, one
-- option after the other, is an argument of their `main`.
use Prim.Native.Char.{code}
use Prim.Native.String.{String}
use gtksudoku.Prelude.{ℕ, Bool, Option, none, some, List, [], ◌∷◌, ◌++◌, if◌then◌else◌}

-- The bytes of a text.
abbrev pub codes : String → List ℕ
codes String.[] = []
codes (String.◌∷◌ c s) = code c ∷ codes s

-- Literals that stand side by side.
abbrev pub joined : List String → List ℕ
joined [] = []
joined (s ∷ rest) = codes s ++ joined rest

abbrev pub Name : Type 0
Name = List ℕ

-- What can be read under a name, whether a name can be written, whether two names are the same
-- file, and what is on the standard input.
pub record Files : Type 0 where
  pub contents : Name → Option (List ℕ)
  pub writable : Name → Bool
  pub same_file : Name → Name → Bool
  pub stdin : List ℕ

-- `freopen(name, "w", …)` truncates: a file that is read after this is empty.
unfoldable pub truncate : Files → Name → Files
truncate files out = record files {
  contents = λ name.
      if files.same_file name out
      then (elim (files.contents name) [ none ↦ none | some _ ↦ some [] ])
      else files.contents name;
}

pub data Message : Type 0 where
  usage bad_arg_count version : Message
  perror : Name → Message

-- Where the output goes: `none` is the standard output.
pub record Run : Type 0 where
  pub status : ℕ
  pub target : Option Name
  pub output : List ℕ
  pub messages : List Message

-- The end of a run that wrote no output.
abbrev pub stop : ℕ → List Message → Run
stop status messages = record { status = status; target = none; output = []; messages = messages }
