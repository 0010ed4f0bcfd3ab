-- ===== src/Gtk.antt =====
-- The calls of GTK by which the program builds its windows. A widget is the C variable that holds
-- it, since each is made once in the function that declares it; a function's calls are a list, in
-- their order. What the library does with them is not modelled.
pub mod Life
pub mod Register
pub mod Objects
use gtksudoku.Prelude.{ℕ, Bool, true, false, Option, none, some, List, [], ◌∷◌, ◌&&◌}

-- The types that the program makes widgets of, and those that it casts them to. The first two are
-- the program's own, by `G_DEFINE_TYPE`.
pub data GType : Type 0 where
  sudoku_board sudoku_cell : GType
  gtk_widget gtk_container gtk_window gtk_dialog gtk_file_chooser_dialog gtk_file_chooser : GType
  gtk_about_dialog gtk_box gtk_entry gtk_editable gtk_scrolled_window gtk_text_view gtk_table :
      GType
  gtk_drawing_area gtk_menu_bar g_object : GType

-- The variables for widgets.
pub data Widget : Type 0 where
  window box menu_bar board status entry dialog content_area sw view grid : Widget

pub data Response : Type 0 where
  cancel accept apply : Response

-- What `gtk_…_set_…` calls set.
pub data Setting : Type 0 where
  title text program_name version copyright comments license website : List ℕ → Setting
  default_response : Response → Setting
  shadow_in policy_never_automatic wrap_word wrap_license overwrite_confirmation : Setting
  cursor_visible editable can_focus : Bool → Setting
  left_margin right_margin : ℕ → Setting
  default_size : ℕ → ℕ → Setting
  aspect_hints : ℕ → ℕ → Setting

-- The functions that signals are connected to.
pub data Handler : Type 0 where
  gtk_main_quit entry_callback : Handler

pub data Call : Type 0 where
  -- a new widget of a type, and the buttons of a new dialog with their responses
  create : Widget → GType → Call
  buttons : Widget → List (List ℕ × Response) → Call
  -- a widget that is a part of another, `gtk_dialog_get_content_area`
  part : Widget → Widget → GType → Call
  -- a cast, `GTK_WINDOW(dialog)`
  cast : Widget → GType → Call
  set : Widget → Setting → Call
  -- containers: `gtk_container_add`, the same with "expand" and "fill", and `gtk_box_pack_start`
  add add_expand_fill : Widget → Widget → Call
  pack_start : Widget → Widget → Bool → Bool → ℕ → Call
  connect : Widget → List ℕ → Handler → Call
  set_icon set_accelerators : Widget → Call
  show_all run destroy : Widget → Call

-- The widgets that stand in a window for the library's sake only are compared by name.
unfoldable pub same_widget : Widget → Widget → Bool
same_widget window window = true
same_widget box box = true
same_widget menu_bar menu_bar = true
same_widget board board = true
same_widget status status = true
same_widget entry entry = true
same_widget dialog dialog = true
same_widget content_area content_area = true
same_widget sw sw = true
same_widget view view = true
same_widget grid grid = true
same_widget _ _ = false
