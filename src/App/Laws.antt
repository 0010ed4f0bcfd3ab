-- ===== src/App/Laws.antt =====
-- What the handlers of src/gtksudoku.c do to the window and the files, and how a session ends.
use gtksudoku.Prelude.{ℕ, ◌≡◌, ◌≢◌, Bool, true, some}
use gtksudoku.Prelude.{List, [], ◌∷◌, if◌then◌else◌, ℤ, negsuc, done, fault}
use gtksudoku.Prelude.{≢→==, arith}
use gtksudoku.Tools.Files.{codes}
use gtksudoku.Interp.{Lua, interp_save}
use gtksudoku.Interp.Returns.{clone_ok}
use gtksudoku.App
use gtksudoku.App.{InFile, opened, cannot_open, OutFile, Event, nboard, c_string}

module _ (lua : Lua) (atoi : List ℕ → ℤ) (malloc_ok : ℕ → Bool)
    (room : (n : ℕ) → malloc_ok n ≡ true) where
  open lua use {State, getglobal, pcall, tostring}

  module _ (out : OutFile) (app : App.App lua atoi malloc_ok) where
    -- What the script's `save` leaves: a status and a state.
    abbrev saved : ℕ × State
    saved = pcall 0 1 (getglobal (codes "save") app.script)

    -- If `malloc` succeeds: saving where the call of the script's `save` fails is a read through
    -- the null pointer, whatever file was chosen.
    pub save_file_fault : saved.0 ≢ 0 → App.save_file lua atoi malloc_ok out app ≡ fault
    unfolding App.save_file interp_save
    save_file_fault h =
        rw (clone_ok lua atoi malloc_ok room (tostring (negsuc 0) saved.1), ≢→== saved.0 0 h)

    -- If `malloc` succeeds and the call of the script's `save` succeeds with a text that is not
    -- empty: the file holds exactly that text and the status line is cleared; if the file cannot
    -- be opened, nothing is written and the status line says so.
    pub save_file_lem :
        (c : ℕ) (s : List ℕ)
        → saved.0 ≡ 0
        → tostring (negsuc 0) saved.1 ≡ some (c ∷ s)
        → App.save_file lua atoi malloc_ok out app
          ≡ done (
              if out.openable
              then record app {
                script = saved.1;
                status = [];
                written = (out.name, c ∷ s) ∷ app.written;
              }
              else record app { script = saved.1; status = codes "failed to open file" })
    unfolding App.save_file interp_save App.set_status
    save_file_lem c s ok text =
        ground (arith, clone_ok lua atoi malloc_ok room (tostring (negsuc 0) saved.1))
