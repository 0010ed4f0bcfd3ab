-- ===== src/Tools/Bin2c/Names.antt =====
-- The C identifiers that src/bin2c.c makes of a file name.
use gtksudoku.Prelude.{ℕ, ◌≡◌, refl, Bool, true, ◌&&◌, ◌||◌, List, [], ◌∷◌, ◌==◌, arith}
use gtksudoku.Tools.Files.{Name}
use gtksudoku.Tools.Bin2c.{isalpha, isalnum, emit_rest, emit_name}

-- A character that may stand in a C identifier behind the first.
unfoldable pub is_part : ℕ → Bool
unfolding isalnum
is_part c = isalnum c || c == b'_'

unfoldable pub all_parts : List ℕ → Bool
all_parts [] = true
all_parts (c ∷ s) = is_part c && all_parts s

-- A C identifier: a letter or an underscore, and then letters, digits and underscores.
unfoldable pub is_identifier : List ℕ → Bool
is_identifier [] = Bool.false
is_identifier (c ∷ s) = (isalpha c || c == b'_') && all_parts s

emit_rest-all_parts : (s : Name) → all_parts (emit_rest s) ≡ true
unfolding emit_rest all_parts is_part
emit_rest-all_parts [] = refl
emit_rest-all_parts (c ∷ s) = ground (arith, emit_rest-all_parts s)

-- Whatever the name, what is printed for it is a C identifier.
pub emit_name-is_identifier : (s : Name) → is_identifier (emit_name s) ≡ true
unfolding emit_name is_identifier isalpha all_parts
emit_name-is_identifier [] = refl
emit_name-is_identifier (c ∷ s) = ground (arith, emit_rest-all_parts s)

emit_rest_identity : (s : Name) → all_parts s ≡ true → emit_rest s ≡ s
unfolding emit_rest all_parts is_part
emit_rest_identity [] h = refl
emit_rest_identity (c ∷ s) h = ground (arith, emit_rest_identity s)

-- A name that is an identifier is printed as it stands.
pub emit_name_identity : (s : Name) → is_identifier s ≡ true → emit_name s ≡ s
unfolding emit_name is_identifier isalpha all_parts
emit_name_identity [] h = absurd (ground arith)
emit_name_identity (c ∷ s) h = ground (arith, emit_rest_identity s)
