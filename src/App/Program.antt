-- ===== src/App/Program.antt =====
-- `main` of src/gtksudoku.c, from `gtk_init` to the end of the main loop.
use gtksudoku.Prelude.{ℕ, Bool, true, if◌then◌else◌, Option, none, some, List, [], ◌∷◌, ◌++◌}
use gtksudoku.Prelude.{ℤ, inl, inr, ◌⊎◌, Outcome, done, fault, exited, ◌>>=◌}
use gtksudoku.Gtk.{Call, show_all, window}
use gtksudoku.Interp.{Lua, interp_init}
use gtksudoku.App.{App, InFile, Event, load_file, gtk_main}
use gtksudoku.App.Layout.{main_window}

-- What the library and the build give `main`: whether `gtk_init` can open a display, `PACKAGE_NAME`,
-- and which descriptions of menus are accepted.
pub record Start : Type 0 where
  pub display : Bool
  pub package_name : List ℕ
  pub accepts : List ℕ → Bool

-- `gtk_init`, which ends the program with status 1 if there is no display.
unfoldable pub gtk_init : Bool → Outcome (List Call)
gtk_init display = if display then done [] else exited 1

module _ (lua : Lua) (atoi : List ℕ → ℤ) (malloc_ok : ℕ → Bool) where
  -- The end of the program, with the calls that built its window: the message that it prints and its
  -- status, or what the window shows.
  abbrev pub End : Type 0
  End = List Call × (List ℕ × ℕ ⊎ App lua atoi malloc_ok)

  -- The argument is the file that the command line names, if it names one.
  unfoldable pub open_argument :
      Option InFile → App lua atoi malloc_ok → Outcome (App lua atoi malloc_ok)
  open_argument none app = done app
  open_argument (some file) app = load_file lua atoi malloc_ok file app

  -- `main` from the start of the interpreter on.
  unfoldable pub run : List Call → Option InFile → List Event → Outcome End
  unfolding open_argument
  run calls argument events = do
    r ← interp_init lua atoi malloc_ok
    elim r.0 [
      | some message ↦ done (calls, inl (message, 1))
      | none ↦ elim r.1 [
        | none ↦ fault
        | some st ↦ do
          let app : App lua atoi malloc_ok = record {
            status = [];
            entry = [];
            script = st;
            written = [];
            helps = [];
            running = true;
          }
          app' ← open_argument argument app
          app'' ← gtk_main lua atoi malloc_ok events app'
          done (calls ++ show_all window ∷ [], inr app'')
      ]
    ]

  unfoldable pub main : Start → Option InFile → List Event → Outcome End
  unfolding gtk_init run
  main start argument events = do
    started ← gtk_init start.display
    calls ← main_window start.package_name start.accepts
    run (started ++ calls) argument events
