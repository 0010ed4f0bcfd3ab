-- ===== src/Script/Load/Places.antt =====
-- Where the characters of the text of a puzzle stand, in the table that src/sudoku.lua reads.
use gtksudoku.Prelude.{
  ℕ, suc, ◌+◌, ◌-◌, ◌*◌, ◌≡◌, refl, sym, ap, ◌∙◌, Bool, true, false, ◌&&◌, ◌||◌, arith, Option,
  none, some,
}
use gtksudoku.Prelude.{
  List, [], ◌∷◌, ◌++◌, ◌==◌, ==→≡, leb, if◌then◌else◌, length, get_or, Bool-cases, inl, inr,
}
use gtksudoku.Script.Board.{Place, same, row}
use gtksudoku.Script.Load.{is_item, strip_string, flatten, table}
use gtksudoku.Script.Solution.{InTable, has, same→≡, for_places_lem}

-- The dots and the digits 1 to 9 of a text.
unfoldable pub cells_of : List ℕ → List ℕ
cells_of [] = []
cells_of (c ∷ s) =
    let rest = cells_of s in if c == b'.' || leb b'1' c && leb c b'9' then c ∷ rest else rest

-- The number of a place, when the table is read from the left to the right, row by row.
abbrev pub number_of : Place → ℕ
number_of (r1, c1, r2, c2) = 9 * (3 * (r1 - 1) + (r2 - 1)) + (3 * (c1 - 1) + (c2 - 1))

-- What a text has for a place.
abbrev pub char_of : List ℕ → Place → ℕ
char_of s p = get_or (cells_of s) (number_of p) b'.'

pub cells_of-strip_string : (s : List ℕ) → strip_string s ≡ cells_of s
unfolding cells_of strip_string is_item
cells_of-strip_string [] = refl
cells_of-strip_string (c ∷ s) =
    ap (λ rest. if c == 46 || leb 49 c && leb c 57 then c ∷ rest else rest)
      (cells_of-strip_string s)

-- What the loops meet at a place, for the places and the bytes that are left.
unfoldable pub char_at : Place → List Place → List ℕ → Option ℕ
char_at p [] cs = none
char_at p (q ∷ qs) [] = none
char_at p (q ∷ qs) (c ∷ cs) = let rest = char_at p qs cs in if same p q then some c else rest

-- The places have numbers one after another.
unfoldable pub numbered : ℕ → List Place → Bool
numbered k [] = true
numbered k (q ∷ qs) = number_of q == k && numbered (k + 1) qs

pub table-numbered : numbered 0 table ≡ true
unfolding numbered table flatten row
table-numbered = refl

pub and_split : (x y : Bool) → (x && y) ≡ true → (x ≡ true) × (y ≡ true)
and_split true y h = (refl, h)
and_split false y h = absurd cc

char_at-numbered :
    (p : Place) (k : ℕ) (ps : List Place) (cs : List ℕ)
    → numbered k ps ≡ true
    → has p ps ≡ true
    → length cs ≡ length ps
    → (n : ℕ) × (number_of p ≡ k + n) × (char_at p ps cs ≡ some (get_or cs n b'.'))
unfolding numbered char_at
char_at-numbered p k [] cs h member long = absurd cc
char_at-numbered p k (q ∷ qs) [] h member long = absurd (omega (arith, long))
char_at-numbered p k (q ∷ qs) (c ∷ cs) h member long =
    let (first, behind) = and_split (number_of q == k) (numbered (k + 1) qs) h in
    elim (Bool-cases (same p q)) [
      | inl here ↦
          let at = ap number_of (same→≡ p q here) ∙ ==→≡ (number_of q) k first in
          (0, omega (arith, at), rw here refl)
      | inr there ↦
          let (n, at, found) =
            char_at-numbered p (k + 1) qs cs behind (ground (arith, member, there))
              (omega (arith, long)) in
          (suc n, omega (arith, at), rw there found)
    ]

pub has-table : (p : Place) → InTable p → has p table ≡ true
unfolding table flatten row same
has-table p inside = for_places_lem (λ p. has p table) p refl inside

length-table : length table ≡ 81
unfolding table flatten row
length-table = refl

pub char_at-table :
    (p : Place) (s : List ℕ)
    → InTable p
    → length (cells_of s) ≡ 81
    → char_at p table (strip_string s) ≡ some (char_of s p)
char_at-table p s inside long =
    let (n, at, found) =
      char_at-numbered p 0 table (cells_of s) table-numbered (has-table p inside)
        (long ∙ sym length-table) in
    ap (char_at p table) (cells_of-strip_string s)
    ∙ (found ∙ ap (λ k. some (get_or (cells_of s) k b'.')) (omega (arith, at)))

pub char_at-append :
    (p : Place) (ps qs : List Place) (s t : List ℕ)
    → length s ≡ length ps
    → char_at p (ps ++ qs) (s ++ t) ≡ (if has p ps then char_at p ps s else char_at p qs t)
unfolding char_at
char_at-append p [] qs [] t e = refl
char_at-append p [] qs (c ∷ s) t e = absurd (omega (arith, e))
char_at-append p (q ∷ ps) qs [] t e = absurd (omega (arith, e))
char_at-append p (q ∷ ps) qs (c ∷ s) t e = elim (Bool-cases (same p q)) [
  | inl here ↦ rw here refl
  | inr there ↦ rw there (char_at-append p ps qs s t (omega (arith, e)))
]

pub has-append : (p : Place) (ps qs : List Place) → has p ps ≡ false → has p (ps ++ qs) ≡ has p qs
has-append p [] qs h = refl
has-append p (q ∷ ps) qs h =
    let rest = has-append p ps qs (ground (arith, h)) in ground (arith, h, rest)
