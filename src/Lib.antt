-- ===== src/Lib.antt =====
-- GTK Sudoku, the C program under src/: a window with a Sudoku board, in which the user applies the
-- rules of the puzzle by commands.
--
-- The parts and how they interact. The main window (src/gtksudoku.c) holds a board that shows cells
-- and an entry line for commands. A command goes to the interpreter link (src/interp.c), which
-- splits it into words and calls `eval` of the Lua script (src/sudoku.lua). The script calls back:
-- `set_val` writes a cell of the board, `edit` opens the edit dialog (src/sudokuedit.c), `show` a
-- text window (src/showtext.c). A board (src/sudokuboard.c) is a 9 by 9 table of cells
-- (src/sudokucell.c); boards travel as strings of cell descriptors (src/board.c). Two filters of
-- the build, src/u2d.c and src/bin2c.c, stand apart.
--
-- Where to find what:
--   Prelude, Constants   shared helpers; the constants of src/gtksudoku.h
--   BoardText            src/board.c: `isboardchar`, `boardlen`, `boardchar2val`, `val2boardchar`
--   Cell                 src/sudokucell.c: the record Cell is `SudokuCellPrivate`; `set_val`,
--                        `get_val` and the handlers of events, each with the requests that it makes
--                        of GTK, in their order; Cell/Keys has the table of the keys. Cell/Draw has
--                        `draw_square` and `draw` as lists of calls of cairo; Cell/Draw/Lines
--                        and Glyphs say what they look like
--   Board                src/sudokuboard.c: the table as a list of rows; `sudoku_board_set_val`,
--                        `sudoku_board_get_val`, `sudoku_board_new`
--   Edit                 src/sudokuedit.c: `sudoku_dialog_set` and `sudoku_edit_dialog`; Edit/Spec
--                        is what the dialog promises, in characters at places
--   Interp               src/interp.c: `push_item`, `interp_eval`, `interp_load`, `interp_save`,
--                        `interp_init`; Interp/Words has the words of a command, Interp/Stack the
--                        Lua stack, Interp/Callbacks the functions `set_val`, `edit` and `show`
--   App                  src/gtksudoku.c: `set_status`, `load_file`, `save_file`,
--                        `entry_callback`, the menu entries and the main loop; App/Program has
--                        `main`, from `gtk_init` on
--   Gtk, ShowText        the calls of the library, what is there after a list of them (Gtk/Life),
--                        the types of src/sudokuboard.h and src/sudokucell.h (Gtk/Objects);
--                        src/showtext.c: `show_text`. App/{Texts,Dialogs,Menus,Layout,Windows}
--                        have the texts, dialogs, menus and windows of src/gtksudoku.c,
--                        Edit/Layout the window of src/sudokuedit.c
--   the interfaces       Interp/Contract for src/interp.h, Board/Class and Cell/Class for
--                        src/sudokuboard.h and src/sudokucell.h, BoardText/Format for
--                        src/board.h, Edit/Contract for src/sudokuedit.h; Interp/Gui is what the
--                        main window gives the interpreter
--   Script               src/sudoku.lua: Script/Cell has the methods of a cell (`singleton`,
--                        `unknowns`, `first`, `only_pair_present`, `val`) and what
--                        `Board:print_item` hands to `set_val`; Script/Board has `determine` and
--                        `propagate_elimination`, Script/Load the reading of puzzles
--                        (Script/Load/Hints: what the text of a puzzle says, Places: where),
--                        Script/Rules, Script/Crossing and Script/Pairs the rules,
--                        Script/Strategies the loops over them, Script/Hint the hints, and
--                        Script/Solution what a solution of the puzzle is. Script/Session has the
--                        current board and the history, `push`, `back`, `swap`, `new`, `load`,
--                        `show` and `print_all`, Script/Commands the command table, and
--                        Script/Eval `eval`, `save` and the editing of boards. The modules named
--                        Clean follow the digits that are determined, up to the boards of a game
--                        (Script/Commands/Played)
--   Tools                src/u2d.c and src/bin2c.c
--   Tests                runs on small inputs
--
-- Conventions. A C function that can fault, leave the program or loop returns an Outcome. Pointers
-- into a string are the bytes from there up to the terminator; `none` is the null pointer, or one
-- behind the terminator. An `int` that may be negative is ℤ; the `size_t` of `boardlen` wraps
-- around; sets of digits are masked to nine bits as in the code. The loop of `interp_eval` runs on
-- fuel, one more than the length of the command, since each round takes a character. `determine` of
-- the script runs on fuel, one more than the number of cells that are not determined, of which a
-- board has 81, since each call that goes on determines one. The loops over the rules
-- (Script/Strategies) run on fuel, one more than the digits left on the board, since each round but
-- the last takes one away. All other loops are structural.
--
-- The libraries are arguments. Lua is a record of the calls that src/interp.c makes, over a state
-- that stands for all that a call can reach; the hypotheses are that `atoi` stops at a space that
-- stands behind digits, of which there is one at least, that `malloc` succeeds where a theorem says
-- so, and for the Lua stack what the manual says of each call and of the message that a failed call
-- leaves. Of GTK the model has the hierarchy of types (which classes stand below which, and that
-- what is made to be of a type is of that type), which cells have a window, what the key bindings
-- answer, and the user's events as lists; of `getopt` what it answers. For the script the user's
-- work in the edit dialog is a function from the text that is shown to the text that comes back.
--
-- Not modelled: the help texts of src/sudoku.lua, which are an argument of the model, with the
-- functions `wrap` and `mk_index` that lay them out; the copy of Lua in src/; and the drawing of
-- text by the library.
pub mod Prelude
pub mod Constants
pub mod BoardText
pub mod Cell
pub mod Board
pub mod Edit
pub mod Tools
pub mod Gtk
pub mod ShowText
pub mod Interp
pub mod App
pub mod Script
pub mod Tests
