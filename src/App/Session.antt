-- ===== src/App/Session.antt =====
-- Sessions of src/gtksudoku.c: the main loop over the events of the user.
use gtksudoku.Prelude.{ℕ, ◌≡◌, refl, ap, Bool, true, false, none, some}
use gtksudoku.Prelude.{
  List, [], ◌∷◌, ◌++◌, if◌then◌else◌, ℤ, take, Outcome, done, ◌>>=◌, IsDone, IsDone->>=, IsDone-if,
}
use mathlib.Core.Path.{fun_ext}
use gtksudoku.Interp.{Lua, interp_eval, interp_load}
use gtksudoku.Interp.Words.{words}
use gtksudoku.Interp.Eval.{StopsAtSpace, interp_eval_lem}
use gtksudoku.App
use gtksudoku.App.{InFile, opened, cannot_open, Event, c_string, nboard}
use gtksudoku.Interp.Returns.{eval_words-IsDone, interp_load-IsDone}

-- An event that saves no board.
abbrev pub KeepsFiles : Event → Type 0
KeepsFiles (App.enter _) = Unit
KeepsFiles (App.open_file _) = Unit
KeepsFiles (App.save_file_as none) = Unit
KeepsFiles (App.save_file_as (some _)) = ⊥
KeepsFiles App.quit = Unit
KeepsFiles App.help_intro = Unit
KeepsFiles App.help_about = Unit

abbrev pub SavesNothing : List Event → Type 0
SavesNothing [] = Unit
SavesNothing (event ∷ events) = KeepsFiles event × SavesNothing events

module _ (lua : Lua) (atoi : List ℕ → ℤ) (malloc_ok : ℕ → Bool)
    (room : (n : ℕ) → malloc_ok n ≡ true) where
  open lua use {State}

  pub load_file-IsDone :
      (file : InFile) (app : App.App lua atoi malloc_ok)
      → IsDone (App.load_file lua atoi malloc_ok file app)
  unfolding App.load_file
  load_file-IsDone cannot_open app = tt
  load_file-IsDone (opened bytes true) app = tt
  load_file-IsDone (opened bytes false) app =
      IsDone->>= (interp_load lua atoi malloc_ok (c_string (take nboard bytes)) app.script)
        (λ r. done (App.set_status lua atoi malloc_ok r.0 (record app { script = r.1 })))
        (interp_load-IsDone lua atoi malloc_ok room _ app.script) (λ r. tt {0})

  module _ (stops : StopsAtSpace atoi) where
    handle-IsDone :
        (event : Event) (app : App.App lua atoi malloc_ok)
        → KeepsFiles event
        → IsDone (App.handle lua atoi malloc_ok event app)
    unfolding App.handle App.entry_callback
    handle-IsDone (App.enter cmd) app h =
        IsDone->>= (interp_eval lua atoi malloc_ok cmd app.script) _
          (rw (interp_eval_lem lua atoi malloc_ok stops cmd app.script)
            (eval_words-IsDone lua atoi malloc_ok room (words cmd) app.script))
          (λ r. tt)
    handle-IsDone (App.open_file none) app h = tt
    handle-IsDone (App.open_file (some file)) app h = load_file-IsDone file app
    handle-IsDone (App.save_file_as none) app h = tt
    handle-IsDone (App.save_file_as (some out)) app h = absurd h
    handle-IsDone App.quit app h = tt
    handle-IsDone App.help_intro app h = tt
    handle-IsDone App.help_about app h = tt

    -- If `malloc` succeeds and `atoi` stops at a space, a session that saves nothing never faults,
    -- exits or runs out of fuel, whatever is entered, opened and read.
    pub gtk_main-IsDone :
        (events : List Event) (app : App.App lua atoi malloc_ok)
        → SavesNothing events
        → IsDone (App.gtk_main lua atoi malloc_ok events app)
    unfolding App.gtk_main
    gtk_main-IsDone [] app h = tt
    gtk_main-IsDone (event ∷ events) app (keeps, rest) =
        IsDone->>= (App.handle lua atoi malloc_ok event app) _ (handle-IsDone event app keeps)
          (λ app'. IsDone-if app'.running _ _ (gtk_main-IsDone events app' rest) tt)

-- The events behind the quit of a session change nothing about its end.
pub gtk_main_quit :
    (lua : Lua) (atoi : List ℕ → ℤ) (malloc_ok : ℕ → Bool) (before after : List Event)
    (app : App.App lua atoi malloc_ok)
    → App.gtk_main lua atoi malloc_ok (before ++ App.quit ∷ after) app
      ≡ App.gtk_main lua atoi malloc_ok (before ++ App.quit ∷ []) app
unfolding App.gtk_main App.handle
gtk_main_quit lua atoi malloc_ok [] after app = refl
gtk_main_quit lua atoi malloc_ok (event ∷ before) after app =
    ap
      (λ (rest : App.App lua atoi malloc_ok → Outcome (App.App lua atoi malloc_ok)).
        App.handle lua atoi malloc_ok event app >>= λ app'.
        if app'.running then rest app' else done app')
      (fun_ext (λ app'. gtk_main_quit lua atoi malloc_ok before after app'))
