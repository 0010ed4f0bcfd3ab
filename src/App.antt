-- ===== src/App.antt =====
-- src/gtksudoku.c: the main window. The state is what the window shows and the state of the script;
-- the files, the answers of the file dialogs and the user's work are arguments. `main` is in
-- App/Program; the calls that build the windows are in App/Layout and App/Dialogs.
pub mod Laws
pub mod Session
pub mod Startup
pub mod Texts
pub mod Dialogs
pub mod Menus
pub mod Layout
pub mod Windows
pub mod Program
use gtksudoku.Prelude.{
  ℕ, suc, ◌*◌, Bool, true, false, not, Option, none, some, List, [], ◌∷◌, ◌++◌, ◌==◌,
}
use gtksudoku.Prelude.{if◌then◌else◌, ℤ, take, inl, inr, ◌⊎◌, Outcome, done, fault, exited, ◌>>=◌}
use gtksudoku.Constants.{digits}
use gtksudoku.Tools.Files.{codes}
use gtksudoku.Interp.{Lua, interp_eval, interp_load, interp_save, interp_init}

-- `NBOARD`: the size of the buffer for a board.
abbrev pub nboard : ℕ
nboard = digits * digits * digits

-- What `g_fopen` and `fread` make of a file: it cannot be opened, or these are its bytes, and a
-- flag says whether an error came up.
pub data InFile : Type 0 where
  cannot_open : InFile
  opened : List ℕ → Bool → InFile

-- A file to write to: whether it can be opened, and its name.
pub record OutFile : Type 0 where
  pub openable : Bool
  pub name : List ℕ

-- The text windows that `help_intro` and `help_about` show.
pub data Help : Type 0 where
  intro about : Help

-- The entries of the menu bar with what the user does in the dialog that each opens (`none` is a
-- cancelled file dialog), and a command that is entered.
pub data Event : Type 0 where
  enter : List ℕ → Event
  open_file : Option InFile → Event
  save_file_as : Option OutFile → Event
  quit help_intro help_about : Event

-- A string in a buffer ends at its first zero byte.
unfoldable pub c_string : List ℕ → List ℕ
c_string [] = []
c_string (c ∷ s) = let rest = c_string s in if c == 0 then [] else c ∷ rest

module _ (lua : Lua) (atoi : List ℕ → ℤ) (malloc_ok : ℕ → Bool) where
  open lua use {State}

  -- The status line, the entry line, the script, the files written so far and the windows shown so
  -- far, the latest first, and whether the main loop goes on.
  pub record App : Type 0 where
    pub status : List ℕ
    pub entry : List ℕ
    pub script : State
    pub written : List (List ℕ × List ℕ)
    pub helps : List Help
    pub running : Bool

  unfoldable pub set_status : Option (List ℕ) → App → App
  set_status none app = record app { status = [] }
  set_status (some message) app = record app { status = message }

  unfoldable pub load_file : InFile → App → Outcome App
  load_file cannot_open app = done (record app { status = codes "failed to open file" })
  load_file (opened bytes true) app = done (record app { status = codes "failed to read file" })
  load_file (opened bytes false) app = do
    r ← interp_load lua atoi malloc_ok (c_string (take nboard bytes)) app.script
    done (set_status r.0 (record app { script = r.1 }))

  -- `save_file`: the test `if (*board)` reads through the pointer that `interp_save` stored.
  unfoldable pub save_file : OutFile → App → Outcome App
  save_file out app = do
    r ← interp_save lua atoi malloc_ok app.script
    let app' = record app { script = r.2 }
    elim r.0 [
      | none ↦ fault
      | some [] ↦ done (set_status r.1 app')
      | some (c ∷ s) ↦
          (if not out.openable
            then done (record app' { status = codes "failed to open file" })
            else done (set_status r.1 (record app' { written = (out.name, c ∷ s) ∷ app'.written })))
    ]

  unfoldable pub entry_callback : List ℕ → App → Outcome App
  entry_callback cmd app = do
    r ← interp_eval lua atoi malloc_ok cmd app.script
    done (record (set_status r.0 (record app { script = r.1 })) { entry = [] })

  -- `main_entries`, and the signals that `main` connects.
  unfoldable pub handle : Event → App → Outcome App
  handle (enter cmd) app = entry_callback cmd (record app { entry = cmd })
  handle (open_file none) app = done app
  handle (open_file (some file)) app = load_file file app
  handle (save_file_as none) app = done app
  handle (save_file_as (some file)) app = save_file file app
  handle quit app = done (record app { running = false })
  handle help_intro app = done (record app { helps = intro ∷ app.helps })
  handle help_about app = done (record app { helps = about ∷ app.helps })

  -- `gtk_main`: events are handled until the main loop is told to quit.
  unfoldable pub gtk_main : List Event → App → Outcome App
  gtk_main [] app = done app
  gtk_main (event ∷ events) app = do
    app' ← handle event app
    let rest = gtk_main events app'
    if app'.running then rest else done app'
