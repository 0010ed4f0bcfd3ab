-- ===== src/Tools/Messages.antt =====
-- What src/u2d.c and src/bin2c.c print on the standard error stream. `PACKAGE_NAME` and `VERSION`
-- may be missing from the build, and the texts of `perror` are the library's: they are arguments.
use gtksudoku.Prelude.{ℕ, Option, none, some, List, [], ◌∷◌, ◌++◌}
use gtksudoku.Tools.Files.{codes, joined}

-- `usage` of src/u2d.c, for the name of the program.
unfoldable pub u2d_usage : List ℕ → List ℕ
u2d_usage prog =
    codes "Usage: "
    ++ prog
    ++ joined (
        " [options] [input]\n" ∷ "Options:\n"
        ∷ "  -o file -- output to file (default is standard output)\n"
        ∷ "  -h      -- print this message\n" ∷ [])

-- `usage` of src/bin2c.c
unfoldable pub bin2c_usage : List ℕ → List ℕ
bin2c_usage prog =
    codes "Usage: "
    ++ prog
    ++ joined (
        " [options] file\n" ∷ "Options:\n"
        ∷ "  -n name -- generated C identifier source (default is file)\n"
        ∷ "  -o file -- output to file (default is standard output)\n"
        ∷ "  -v      -- print version information\n" ∷ "  -h      -- print this message\n" ∷ [])

-- The static variable `package`: `PACKAGE_NAME`, if the build has it.
unfoldable pub package_of : Option (List ℕ) → Option (List ℕ)
package_of none = none
package_of (some name) = some name

-- The static variable `version`: `VERSION`, if the build has it.
unfoldable pub version_of : Option (List ℕ) → List ℕ
version_of none = codes "version unknown"
version_of (some v) = v

-- `print_version`, for `PACKAGE_NAME`, `VERSION` and the name of the program.
unfoldable pub print_version : Option (List ℕ) → Option (List ℕ) → List ℕ → List ℕ
unfolding package_of version_of
print_version name build program =
    let shown : List ℕ = elim (package_of name) [ none ↦ program | some p ↦ p ] in
    shown ++ codes " " ++ version_of build ++ codes "\n"
