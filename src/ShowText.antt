-- ===== src/ShowText.antt =====
-- src/showtext.c: a dialog window that displays a text. The name of the package, from config.h, the
-- metrics of the font and the macro `PANGO_PIXELS` are arguments.
use gtksudoku.Prelude.{ℕ, ◌+◌, ◌*◌, false, List, [], ◌∷◌, ◌++◌}
use gtksudoku.Tools.Files.{codes}
use gtksudoku.Gtk.{
  Call, create, buttons, part, cast, set, add, add_expand_fill, show_all, run, destroy,
}
use gtksudoku.Gtk.{window, dialog, content_area, sw, view, cancel, title, text, default_response}
use gtksudoku.Gtk.{
  shadow_in, policy_never_automatic, wrap_word, cursor_visible, editable, left_margin,
}
use gtksudoku.Gtk.{right_margin, default_size, gtk_window, gtk_dialog, gtk_box, gtk_scrolled_window}
use gtksudoku.Gtk.{gtk_container, gtk_text_view}

-- What `pango_font_metrics_get_…` answer for the font of the view.
pub record Metrics : Type 0 where
  pub char_width : ℕ
  pub ascent : ℕ
  pub descent : ℕ

unfoldable pub show_text : List ℕ → (ℕ → ℕ) → Metrics → List ℕ → List Call
show_text package_name pixels metrics shown =
    let height = pixels (metrics.ascent + metrics.descent) in
    let width = pixels metrics.char_width in
    cast window gtk_window
    ∷ create dialog gtk_dialog
    ∷ set dialog (title (package_name ++ codes " Help"))
    ∷ buttons dialog ((codes "_Close", cancel) ∷ [])
    ∷ cast dialog gtk_dialog
    ∷ part content_area dialog gtk_box
    ∷ cast dialog gtk_dialog
    ∷ set dialog (default_response cancel)
    ∷ create sw gtk_scrolled_window
    ∷ cast sw gtk_scrolled_window
    ∷ set sw shadow_in
    ∷ cast sw gtk_scrolled_window
    ∷ set sw policy_never_automatic
    ∷ cast content_area gtk_container
    ∷ add_expand_fill content_area sw
    ∷ create view gtk_text_view
    ∷ cast view gtk_text_view
    ∷ set view wrap_word
    ∷ cast view gtk_text_view
    ∷ set view (text shown)
    ∷ cast view gtk_text_view
    ∷ set view (cursor_visible false)
    ∷ cast view gtk_text_view
    ∷ set view (editable false)
    ∷ cast view gtk_text_view
    ∷ set view (left_margin (2 * width))
    ∷ cast view gtk_text_view
    ∷ set view (right_margin (2 * width))
    ∷ cast dialog gtk_window
    ∷ set dialog (default_size (70 * width) (20 * height))
    ∷ cast sw gtk_container
    ∷ add sw view
    ∷ show_all dialog
    ∷ cast dialog gtk_dialog
    ∷ run dialog
    ∷ destroy dialog
    ∷ []
