-- ===== src/Gtk/Life.antt =====
-- The life of the widgets in a list of calls: a reading of the calls that stops at the first misuse.
use gtksudoku.Prelude.{◌≡◌, Bool, true, Option, none, some, List, [], ◌∷◌, if◌then◌else◌}
use gtksudoku.Gtk.{
  GType, Widget, same_widget, Call, create, buttons, part, cast, set, add, add_expand_fill,
}
use gtksudoku.Gtk.{pack_start, connect, set_icon, set_accelerators, show_all, run, destroy}
use gtksudoku.Gtk.{gtk_container, gtk_window, gtk_dialog, gtk_file_chooser_dialog}
use gtksudoku.Gtk.{gtk_file_chooser, gtk_about_dialog, gtk_box, gtk_entry, gtk_editable}
use gtksudoku.Gtk.{gtk_scrolled_window, gtk_widget, g_object, sudoku_board}

-- What the library's manual says of its types, and `G_DEFINE_TYPE` of the board, as far as the
-- program relies on it.
pub record Hierarchy : Type 0 where
  pub is_a : GType → GType → Bool
  pub same : (t : GType) → is_a t t ≡ true
  pub entry_object : is_a gtk_entry g_object ≡ true
  pub board_widget : is_a sudoku_board gtk_widget ≡ true
  pub dialog_window : is_a gtk_dialog gtk_window ≡ true
  pub window_container : is_a gtk_window gtk_container ≡ true
  pub chooser_chooser : is_a gtk_file_chooser_dialog gtk_file_chooser ≡ true
  pub chooser_dialog : is_a gtk_file_chooser_dialog gtk_dialog ≡ true
  pub about_about : is_a gtk_about_dialog gtk_dialog ≡ true
  pub box_container : is_a gtk_box gtk_container ≡ true
  pub entry_editable : is_a gtk_entry gtk_editable ≡ true
  pub scrolled_container : is_a gtk_scrolled_window gtk_container ≡ true

-- A widget that is there: its variable, its type, and the outermost widget that it stands in.
pub record Live : Type 0 where
  pub name : Widget
  pub type : GType
  pub top : Widget

unfoldable pub find : Widget → List Live → Option Live
find w [] = none
find w (x ∷ xs) = let rest = find w xs in if same_widget w x.name then some x else rest

-- All that stands in one widget now stands in another.
unfoldable pub move : Widget → Widget → List Live → List Live
move child parent [] = []
move child parent (x ∷ xs) =
    (if same_widget child x.top then record x { top = parent } else x) ∷ move child parent xs

-- A widget is gone with all that stands in it.
unfoldable pub remove : Widget → List Live → List Live
remove w [] = []
remove w (x ∷ xs) = let rest = remove w xs in if same_widget w x.top then rest else x ∷ rest

module _ (h : Hierarchy) where
  open h use {is_a}

  -- A call on what is there; `none` is a use of a widget that is not there or not of the type, a
  -- second widget under a name, or a widget that is put into two containers.
  unfoldable pub use_of : Widget → List Live → Option (List Live)
  use_of w live = elim (find w live) [ none ↦ none | some _ ↦ some live ]

  unfoldable pub put_into : Widget → Widget → List Live → Option (List Live)
  put_into parent child live = elim (find parent live) [
    | none ↦ none
    | some p ↦ elim (find child live) [
      | none ↦ none
      | some c ↦ if same_widget child c.top then some (move child p.top live) else none
    ]
  ]

  unfoldable pub step : Call → List Live → Option (List Live)
  unfolding find move remove use_of put_into
  step (create w t) live = elim (find w live) [
    | none ↦ some (record { name = w; type = t; top = w } ∷ live)
    | some _ ↦ none
  ]
  step (part w owner t) live = elim (find owner live) [
    | none ↦ none
    | some o ↦ elim (find w live) [
      | none ↦ some (record { name = w; type = t; top = o.top } ∷ live)
      | some _ ↦ none
    ]
  ]
  step (cast w t) live = elim (find w live) [
    | none ↦ none
    | some x ↦ if is_a x.type t then some live else none
  ]
  step (buttons w bs) live = use_of w live
  step (set w s) live = use_of w live
  step (add parent child) live = put_into parent child live
  step (add_expand_fill parent child) live = put_into parent child live
  step (pack_start parent child expand fill padding) live = put_into parent child live
  step (connect w signal handler) live = use_of w live
  step (set_icon w) live = use_of w live
  step (set_accelerators w) live = use_of w live
  step (show_all w) live = use_of w live
  step (run w) live = use_of w live
  step (destroy w) live = elim (find w live) [ none ↦ none | some _ ↦ some (remove w live) ]

  unfoldable pub live_after : List Call → List Live → Option (List Live)
  unfolding step same_widget
  live_after [] live = some live
  live_after (call ∷ calls) live = elim (step call live) [
    | none ↦ none
    | some live' ↦ live_after calls live'
  ]
