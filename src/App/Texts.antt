-- ===== src/App/Texts.antt =====
-- The texts of the help menu of src/gtksudoku.c. `PACKAGE_NAME` is from config.h, an argument.
use gtksudoku.Prelude.{ℕ, List, [], ◌∷◌, ◌++◌}
use gtksudoku.Tools.Files.{codes, joined}

unfoldable pub intro : List ℕ → List ℕ
intro package_name =
    package_name
    ++ joined (
        ": A Logic Puzzle Solving Aid" ∷ "\n\n"
        ∷ "A Sodoku logic puzzle is solved by filling each cell in a board "
        ∷ "so that every row, column, and 3x3 square contains the "
        ∷ "digits one through nine.  This program eliminates much of the "
        ∷ "drudgery of solving a puzzle and provides educational tips should "
        ∷ "the path to the solution become obscured.  It is different from "
        ∷ "most other programs in this category, because users specify the "
        ∷ "rule that justifies each change to the Sudoku board.  The program "
        ∷ "will fail to apply a rule if its preconditions are not met, thus "
        ∷ "detecting silly mistakes early." ∷ "\n\n" ∷ "Quick Start" ∷ "\n\n"
        ∷ "To enter a board, type \"edit\" and fill in the initial configuration. "
        ∷ "Next type \"help\" to learn how to solve the puzzle." ∷ [])

unfoldable pub license : List ℕ → List ℕ
license package_name =
    joined (
      "Copyright (C) 2006 John D. Ramsdell for the non-Lua parts.  "
      ∷ "Copyright (C) 1994-2006 Lua.org, PUC-Rio for the Lua parts." ∷ "\n\n" ∷ [])
    ++ (package_name
        ++ (joined (
            " License" ∷ "\n\n" ∷ "This program is free software; you can redistribute it and/or "
            ∷ "modify it under the terms of the GNU General Public License as "
            ∷ "published by the Free Software Foundation; either version 2 of the "
            ∷ "License, or (at your option) any later version." ∷ "\n\n"
            ∷ "This program is distributed in the hope that it will be useful, but "
            ∷ "WITHOUT ANY WARRANTY; without even the implied warranty of "
            ∷ "MERCHANTABILITY or FITNESS FOR A PARTICULAR PURPOSE.  "
            ∷ "See the GNU General Public License for more details." ∷ "\n\n"
            ∷ "You should have received a copy of the GNU General Public License "
            ∷ "along with this program; if not, write to the Free Software "
            ∷ "Foundation, Inc., 51 Franklin Street, Fifth Floor, Boston, MA " ∷ "02110-1301 USA"
            ∷ "\n\n" ∷ "Lua License" ∷ "\n\n"
            ∷ "Lua is licensed under the terms of the MIT license.  "
            ∷ "This means that Lua is free software and can be used for "
            ∷ "both academic and commercial purposes at absolutely no cost." ∷ "\n\n"
            ∷ "For details and rationale, see http://www.lua.org/license.html." ∷ [])))

unfoldable pub comments : List ℕ
comments = codes "A logic puzzle solving aid"
