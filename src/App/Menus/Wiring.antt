-- ===== src/App/Menus/Wiring.antt =====
-- The menus reach the functions of the table, each by one item.
use gtksudoku.Prelude.{
  ℕ, ◌≡◌, refl, Bool, true, false, Option, none, some, List, [], ◌∷◌, ◌==◌, if◌then◌else◌, count_if,
  same_text,
}
use gtksudoku.Tools.Files.{codes}
use gtksudoku.App.Menus.{Callback, open_file, save_file_as, gtk_main_quit, help_intro, help_about}
use gtksudoku.App.Menus.{ActionEntry, main_entries, main_ui_description}

-- Whether a text begins with a key, and what stands behind it.
unfoldable pub behind : List ℕ → List ℕ → Option (List ℕ)
behind [] s = some s
behind (k ∷ key) [] = none
behind (k ∷ key) (c ∷ s) = let rest = behind key s in if k == c then rest else none

unfoldable pub up_to_quote : List ℕ → List ℕ
up_to_quote [] = []
up_to_quote (c ∷ s) = let rest = up_to_quote s in if c == b'\'' then [] else c ∷ rest

-- The names that a description of menus gives behind a key, in their order.
unfoldable pub named : List ℕ → List ℕ → List (List ℕ)
named key [] = []
named key (c ∷ s) =
    let rest = named key s in
    elim (behind key (c ∷ s)) [ none ↦ rest | some found ↦ up_to_quote found ∷ rest ]

unfoldable pub find_action : List ℕ → List ActionEntry → Option ActionEntry
find_action name [] = none
find_action name (e ∷ es) =
    let rest = find_action name es in if same_text name e.name then some e else rest

unfoldable pub same_callback : Callback → Callback → Bool
same_callback open_file open_file = true
same_callback save_file_as save_file_as = true
same_callback gtk_main_quit gtk_main_quit = true
same_callback help_intro help_intro = true
same_callback help_about help_about = true
same_callback _ _ = false

-- Whether the item of an action calls a function.
unfoldable pub calls : Callback → List ℕ → Bool
calls c name = elim (find_action name main_entries) [
  | none ↦ false
  | some e ↦ elim e.callback [ none ↦ false | some d ↦ same_callback c d ]
]

abbrev pub item_names : List (List ℕ)
item_names = named (codes "<menuitem action='") main_ui_description

-- Every function that the program has for its menus is called by exactly one item of them.
pub menu_wiring : (c : Callback) → count_if (calls c) item_names ≡ 1
unfolding calls find_action same_callback named behind up_to_quote main_ui_description main_entries
menu_wiring open_file = refl
menu_wiring save_file_as = refl
menu_wiring gtk_main_quit = refl
menu_wiring help_intro = refl
menu_wiring help_about = refl
