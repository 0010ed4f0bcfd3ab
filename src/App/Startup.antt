-- ===== src/App/Startup.antt =====
-- `main` of src/gtksudoku.c from `gtk_init` to the end of the main loop.
use gtksudoku.Prelude.{
  ℕ, ◌≡◌, refl, Bool, true, false, ◌&&◌, Option, none, some, List, [], ◌∷◌, ◌++◌, ℤ,
}
use gtksudoku.Prelude.{
  Outcome, done, exited, ◌>>=◌, IsDone, IsDone->>=, inl, inr, ◌⊎◌, Bool-cases, arith,
}
use gtksudoku.Gtk.{Call, show_all, window}
use gtksudoku.Interp.{Lua}
use gtksudoku.Interp.Eval.{StopsAtSpace}
use gtksudoku.App
use gtksudoku.App.{InFile, Event}
use gtksudoku.App.Layout.{main_window, make_window, make_contents}
use gtksudoku.App.Menus.{get_menubar_menu, main_ui_description, menu_calls}
use gtksudoku.App.Program
use gtksudoku.App.Program.{Start, End, gtk_init, open_argument}
use gtksudoku.Interp.Returns.{interp_init-cases}
use gtksudoku.App.Session.{SavesNothing, load_file-IsDone, gtk_main-IsDone}

module _ (lua : Lua) (atoi : List ℕ → ℤ) (malloc_ok : ℕ → Bool)
    (room : (n : ℕ) → malloc_ok n ≡ true) where
  module _ (stops : StopsAtSpace atoi) where
    open_argument-IsDone :
        (argument : Option InFile) (app : App.App lua atoi malloc_ok)
        → IsDone (open_argument lua atoi malloc_ok argument app)
    unfolding open_argument
    open_argument-IsDone none app = tt
    open_argument-IsDone (some file) app = load_file-IsDone lua atoi malloc_ok room file app

    -- What `main` does once the interpreter has started.
    abbrev loop :
        List Call
        → Option InFile
        → List Event
        → App.App lua atoi malloc_ok
        → Outcome (End lua atoi malloc_ok)
    loop calls argument events app = do
      app' ← open_argument lua atoi malloc_ok argument app
      app'' ← App.gtk_main lua atoi malloc_ok events app'
      done (calls ++ show_all window ∷ [], inr app'')

    loop-IsDone :
        (calls : List Call) (argument : Option InFile) (events : List Event)
        (app : App.App lua atoi malloc_ok)
        → SavesNothing events
        → IsDone (loop calls argument events app)
    loop-IsDone calls argument events app h =
        let finish : App.App lua atoi malloc_ok → Outcome (End lua atoi malloc_ok) =
          λ app''. done (calls ++ show_all window ∷ [], inr app'') in
        IsDone->>= (open_argument lua atoi malloc_ok argument app)
          (λ app'. App.gtk_main lua atoi malloc_ok events app' >>= finish)
          (open_argument-IsDone argument app)
          (λ app'.
            IsDone->>= (App.gtk_main lua atoi malloc_ok events app') finish
              (gtk_main-IsDone lua atoi malloc_ok room stops events app' h) (λ app''. tt {0}))

    run-IsDone :
        (calls : List Call) (argument : Option InFile) (events : List Event)
        → SavesNothing events
        → IsDone (Program.run lua atoi malloc_ok calls argument events)
    unfolding Program.run
    run-IsDone calls argument events h = elim (interp_init-cases lua atoi malloc_ok room) [
      | inl (msg, e) ↦ rw (Program.run, e) tt
      | inr (none, st, e) ↦ rw (Program.run, e) (loop-IsDone calls argument events _ h)
      | inr (some msg, st, e) ↦ rw (Program.run, e) tt
    ]

    pub main-IsDone :
        (start : Start) (argument : Option InFile) (events : List Event)
        → SavesNothing events
        → let result = Program.main lua atoi malloc_ok start argument events in
          (((start.display && start.accepts main_ui_description) ≡ true) × IsDone result)
          ⊎ (((start.display && start.accepts main_ui_description) ≡ false) × (result ≡ exited 1))
    unfolding Program.main gtk_init main_window get_menubar_menu
    main-IsDone start argument events h = elim (Bool-cases start.display) [
      | inr closed ↦ inr (ground (arith, closed), rw (Program.main, closed) refl)
      | inl shown ↦ elim (Bool-cases (start.accepts main_ui_description)) [
        | inr refused ↦
            inr
              (ground (arith, shown, refused), rw (Program.main, shown, main_window, refused) refl)
        | inl accepted ↦ inl (
          ground (arith, shown, accepted),
          rw (Program.main, shown, main_window, accepted)
              (run-IsDone (make_window start.package_name ++ (menu_calls ++ make_contents)) argument
                events h),
        )
      ]
    ]
