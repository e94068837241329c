-- ===== src/Base/Text.antt =====
-- The methods of Python's `str` that the tools call: `lower`, `strip`, `split`, `startswith`,
-- `in`, and a slice from a position. Text is a list of code points.
use Prim.Native.Nat.{ℕ, zero, suc, ◌/◌, ◌%◌}
use Prim.Native.Char.{Char, code}
use Prim.Native.String.{String}
use mathlib.Core.Bool.{Bool, ◌&&◌, ◌||◌}
use mathlib.Core.List.{List, [], ◌∷◌}
use text.Mathlib.Text.{◌==◌, starts_with}
use microstack.Base.Tests.{leb, ◌==ℕ◌, if◌then◌else◌}

-- The code points of a text.
abbrev pub codes : String → List ℕ
codes String.[] = []
codes (String.◌∷◌ c s) = code c ∷ codes s

lower_table : List (ℕ × Char)
lower_table =
    (65, "a")
    ∷ (66, "b")
    ∷ (67, "c")
    ∷ (68, "d")
    ∷ (69, "e")
    ∷ (70, "f")
    ∷ (71, "g")
    ∷ (72, "h")
    ∷ (73, "i")
    ∷ (74, "j")
    ∷ (75, "k")
    ∷ (76, "l")
    ∷ (77, "m")
    ∷ (78, "n")
    ∷ (79, "o")
    ∷ (80, "p")
    ∷ (81, "q")
    ∷ (82, "r")
    ∷ (83, "s")
    ∷ (84, "t")
    ∷ (85, "u")
    ∷ (86, "v")
    ∷ (87, "w")
    ∷ (88, "x")
    ∷ (89, "y")
    ∷ (90, "z")
    ∷ []

char_from : Char → List (ℕ × Char) → Char
char_from c [] = c
char_from c ((n, d) ∷ rest) = if code c ==ℕ n then d else char_from c rest

-- `str.lower` on ASCII; other letters stay. The tools only compare the result with ASCII words
-- that have no letter k, and no other character's lower case is one of their letters alone.
unfoldable pub lower : String → String
unfolding char_from lower_table
lower String.[] = ""
lower (String.◌∷◌ c s) = String.◌∷◌ (char_from c lower_table) (lower s)

-- `str.isspace` of one character.
unfoldable pub is_space : ℕ → Bool
is_space n =
    (leb 9 n && leb n 13)
    || (leb 28 n && leb n 32)
    || n ==ℕ 133
    || n ==ℕ 160
    || n ==ℕ 5760
    || (leb 8192 n && leb n 8202)
    || n ==ℕ 8232
    || n ==ℕ 8233
    || n ==ℕ 8239
    || n ==ℕ 8287
    || n ==ℕ 12288

unfoldable pub lstrip : String → String
lstrip String.[] = ""
lstrip (String.◌∷◌ c s) = let rest = lstrip s in if is_space (code c) then rest else String.◌∷◌ c s

-- A character before a text that is already stripped on the right.
unfoldable pub before : Char → String → String
before c String.[] = if is_space (code c) then "" else String.◌∷◌ c ""
before c (String.◌∷◌ d s) = String.◌∷◌ c (String.◌∷◌ d s)

unfoldable pub rstrip : String → String
rstrip String.[] = ""
rstrip (String.◌∷◌ c s) = before c (rstrip s)

-- `str.strip`
unfoldable pub strip : String → String
unfolding lstrip rstrip before is_space
strip s = lstrip (rstrip s)

-- `s[n:]`
unfoldable pub slice_from : ℕ → String → String
slice_from zero s = s
slice_from (suc n) String.[] = ""
slice_from (suc n) (String.◌∷◌ c s) = slice_from n s

-- A character joins the first field of those that follow it.
abbrev pub onto_first : Char → List String → List String
onto_first c [] = String.◌∷◌ c "" ∷ []
onto_first c (f ∷ fs) = String.◌∷◌ c f ∷ fs

-- `s.split(sep)` at a separator of one character, given by its code point.
unfoldable pub split : ℕ → String → List String
split sep String.[] = "" ∷ []
split sep (String.◌∷◌ c s) =
    let rest = split sep s in if code c ==ℕ sep then "" ∷ rest else onto_first c rest

-- The fields between white space, the empty ones too, and `s.split()`, which leaves these out.
space_fields : String → List String
unfolding is_space
space_fields String.[] = "" ∷ []
space_fields (String.◌∷◌ c s) =
    let rest = space_fields s in if is_space (code c) then "" ∷ rest else onto_first c rest

without_empty : List String → List String
without_empty [] = []
without_empty (f ∷ fs) = let rest = without_empty fs in if f == "" then rest else f ∷ rest

unfoldable pub words : String → List String
unfolding space_fields without_empty
words s = without_empty (space_fields s)

-- `part in s`
unfoldable pub has_part : String → String → Bool
has_part part String.[] = part == ""
has_part part (String.◌∷◌ c s) = starts_with (String.◌∷◌ c s) part || has_part part s

-- `file.readlines()`: every line with its newline.
unfoldable pub readlines : String → List String
readlines String.[] = []
readlines (String.◌∷◌ c s) =
    let rest = readlines s in if code c ==ℕ 10 then String.◌∷◌ c "" ∷ rest else onto_first c rest

digit : ℕ → Char
digit n =
    if n ==ℕ 0
    then "0"
    else if n ==ℕ 1
    then "1"
    else if n ==ℕ 2
    then "2"
    else if n ==ℕ 3
    then "3"
    else if n ==ℕ 4
    then "4"
    else if n ==ℕ 5
    then "5"
    else if n ==ℕ 6
    then "6"
    else if n ==ℕ 7
    then "7"
    else if n ==ℕ 8
    then "8"
    else "9"

-- The decimal digits of a number, before a text; the fuel is a bound on their number.
digits : ℕ → ℕ → String → String
digits zero n rest = rest
digits (suc fuel) n rest =
    let more = digits fuel (n / 10) (String.◌∷◌ (digit (n % 10)) rest) in
    if leb n 9 then String.◌∷◌ (digit n) rest else more

-- `str(n)`
unfoldable pub decimal : ℕ → String
unfolding digits digit
decimal n = digits (suc n) n ""
