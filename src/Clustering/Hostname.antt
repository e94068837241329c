-- ===== src/Clustering/Hostname.antt =====
-- `ConnectionString._validate_hostname`, on the code points of a text.
pub mod Bounds
use microstack.Base.{
  ℕ, Bool, false, not, ◌&&◌, ◌||◌, List, [], ◌∷◌, any, every, length, leb, ◌==ℕ◌, if◌then◌else◌,
}

-- `[A-Z0-9-]` under `re.IGNORECASE`: for texts, Python also matches the four letters outside ASCII
-- whose other case is in the range.
unfoldable pub in_class : ℕ → Bool
in_class c =
    (leb 65 c && leb c 90)
    || (leb 97 c && leb c 122)
    || (leb 48 c && leb c 57)
    || c ==ℕ 45
    || c ==ℕ 304
    || c ==ℕ 305
    || c ==ℕ 383
    || c ==ℕ 8490

-- `[a-zA-Z-]`
unfoldable pub is_letter_or_dash : ℕ → Bool
is_letter_or_dash c = (leb 65 c && leb c 90) || (leb 97 c && leb c 122) || c ==ℕ 45

-- The last code point, or a default.
unfoldable pub last_or : ℕ → List ℕ → ℕ
last_or d [] = d
last_or d (c ∷ cs) = last_or c cs

unfoldable pub but_last : List ℕ → List ℕ
but_last [] = []
but_last (c ∷ []) = []
but_last (c ∷ d ∷ cs) = c ∷ but_last (d ∷ cs)

-- `$` also matches before a newline that ends the text.
unfoldable pub chop_newline : List ℕ → List ℕ
chop_newline cs = if last_or 0 cs ==ℕ 10 then but_last cs else cs

abbrev first_or : ℕ → List ℕ → ℕ
first_or d [] = d
first_or d (c ∷ cs) = c

-- `allowed.match(x)` for `(?!-)[A-Z0-9-]{1,63}(?<!-)$`
unfoldable pub allowed : List ℕ → Bool
unfolding chop_newline in_class last_or
allowed x =
    let body = chop_newline x in
    not (first_or 0 body ==ℕ 45)
    && every in_class body
    && leb 1 (length body)
    && leb (length body) 63
    && not (last_or 0 body ==ℕ 45)

-- A code point joins the first field.
abbrev onto_first : ℕ → List (List ℕ) → List (List ℕ)
onto_first c [] = (c ∷ []) ∷ []
onto_first c (f ∷ fs) = (c ∷ f) ∷ fs

-- `name.split('.')`
unfoldable pub labels : List ℕ → List (List ℕ)
labels [] = [] ∷ []
labels (c ∷ cs) = let rest = labels cs in if c ==ℕ 46 then [] ∷ rest else onto_first c rest

-- `name.split('.')[-1]`
abbrev last_label : List (List ℕ) → List ℕ
last_label [] = []
last_label (l ∷ []) = l
last_label (l ∷ m ∷ ls) = last_label (m ∷ ls)

-- `hostname[:-1]` if it ends with a dot
unfoldable pub without_dot : List ℕ → List ℕ
without_dot host = if last_or 0 host ==ℕ 46 then but_last host else host

-- `_validate_hostname`, `true` where it raises nothing.
unfoldable pub valid_hostname : List ℕ → Bool
unfolding without_dot labels allowed is_letter_or_dash
valid_hostname [] = false
valid_hostname (c ∷ cs) =
    let name = without_dot (c ∷ cs) in
    leb (length name) 253
    && any is_letter_or_dash (last_label (labels name))
    && every allowed (labels name)
