-- ===== src/Scripts/Paths/Again.antt =====
-- A second update of a file.
use Prim.Native.Char.{Char, code}
use text.Mathlib.TextLemmas.{nil-append, cons-append, append-nil, nil≢cons}
use microstack.Base.{
  String, ◌<>◌, ◌==◌, eq_iff, ◌≡◌, refl, ◌∙◌, ap, sym, Bool, true, false, ◌&&◌, ◌||◌, not, ◌==ℕ◌,
  List, [], ◌∷◌, map, readlines, onto_first, arith, subst, ◌⊎◌, Bool-cases, inl, inr, if◌then◌else◌,
}
use text.Mathlib.Text.{starts_with}
use microstack.Scripts.Paths.{libs, path, with_libs, with_path, update_line, write_lines, updated}

-- A line with its newline, which is the last character.
unfoldable full : String → Bool
full String.[] = false
full (String.◌∷◌ c s) = let rest = full s in if code c ==ℕ 10 then s == "" else rest

-- The end of a text without a newline.
unfoldable open_end : String → Bool
open_end String.[] = true
open_end (String.◌∷◌ c s) = not (code c ==ℕ 10) && open_end s

-- What `readlines` returns: full lines, but for the last one, which may be open and is not empty.
unfoldable are_lines : List String → Bool
are_lines [] = true
are_lines (l ∷ []) = full l || (open_end l && not (l == ""))
are_lines (l ∷ m ∷ ls) = full l && are_lines (m ∷ ls)

readlines-full : (l t : String) → full l ≡ true → readlines (l <> t) ≡ l ∷ readlines t
unfolding full readlines
readlines-full String.[] t e = absurd (cc)
readlines-full (String.◌∷◌ c s) t e = rw (cons-append c s t) (elim (Bool-cases (code c ==ℕ 10)) [
  | inl n ↦ rw (n, (eq_iff s "").0 (ground (arith, n, e)), nil-append t) refl
  | inr n ↦ rw (n, readlines-full s t (ground (arith, n, e))) refl
])

readlines-open_end : (l : String) → open_end l ≡ true → (l == "") ≡ false → readlines l ≡ l ∷ []
unfolding open_end readlines
readlines-open_end String.[] e f = absurd (cc)
readlines-open_end (String.◌∷◌ c s) e f =
    let n : (code c ==ℕ 10) ≡ false = ground (arith, e) in
    elim (Bool-cases (s == "")) [
      | inl m ↦ rw (n, (eq_iff s "").0 m) refl
      | inr m ↦ rw (n, readlines-open_end s (ground (arith, e)) m) refl
    ]

cons_not_empty : (c : Char) (s : String) → (String.◌∷◌ c s == "") ≡ false
cons_not_empty c s = elim (Bool-cases (String.◌∷◌ c s == "")) [
  | inl e ↦ absurd (nil≢cons (sym ((eq_iff (String.◌∷◌ c s) "").0 e)))
  | inr e ↦ e
]

are_lines-newline :
    (c : Char) (ls : List String)
    → (code c ==ℕ 10) ≡ true
    → are_lines ls ≡ true
    → are_lines (String.◌∷◌ c "" ∷ ls) ≡ true
unfolding are_lines full
are_lines-newline c [] n e = rw n refl
are_lines-newline c (l ∷ ls) n e = rw (n, e) refl

weaken : (x y z : Bool) → (x || (y && not z)) ≡ true → (x || (y && true)) ≡ true
weaken x y z e = ground (arith, e)

are_lines-onto_first :
    (c : Char) (ls : List String)
    → (code c ==ℕ 10) ≡ false
    → are_lines ls ≡ true
    → are_lines (onto_first c ls) ≡ true
unfolding are_lines full open_end
are_lines-onto_first c [] n e = rw (n, cons_not_empty c "") refl
are_lines-onto_first c (l ∷ []) n e =
    rw (n, cons_not_empty c l) (weaken (full l) (open_end l) (l == "") e)
are_lines-onto_first c (l ∷ m ∷ ls) n e = rw n e

are_lines-readlines : (s : String) → are_lines (readlines s) ≡ true
unfolding readlines are_lines
are_lines-readlines String.[] = refl
are_lines-readlines (String.◌∷◌ c s) = elim (Bool-cases (code c ==ℕ 10)) [
  | inl n ↦ rw n (are_lines-newline c (readlines s) n (are_lines-readlines s))
  | inr n ↦ rw n (are_lines-onto_first c (readlines s) n (are_lines-readlines s))
]

readlines_last : (l : String) → are_lines (l ∷ []) ≡ true → readlines l ≡ l ∷ []
unfolding are_lines
readlines_last l e = elim (Bool-cases (full l)) [
  | inl f ↦
      subst (λ t. readlines t ≡ l ∷ []) (append-nil l)
        (readlines-full l "" f ∙ (unfold readlines in refl))
  | inr f ↦ readlines-open_end l (ground (arith, e, f)) (ground (arith, e, f))
]

readlines-write_lines : (ls : List String) → are_lines ls ≡ true → readlines (write_lines ls) ≡ ls
unfolding write_lines are_lines
readlines-write_lines [] e = unfold readlines in refl
readlines-write_lines (l ∷ []) e = rw (append-nil l) (readlines_last l e)
readlines-write_lines (l ∷ m ∷ ls) e =
    readlines-full l _ (ground (arith, e))
    ∙ ap (λ t. l ∷ t) (readlines-write_lines (m ∷ ls) (ground (arith, e)))

-- The two lines that the update writes.
abbrev libs_line : String
libs_line = "  LD_LIBRARY_PATH: " <> (libs <> "\n")

abbrev path_line : String
path_line = "  PATH: " <> (path <> "\n")

update_line_cases :
    (l : String) → (update_line l ≡ libs_line) ⊎ ((update_line l ≡ path_line) ⊎ (update_line l ≡ l))
unfolding update_line with_libs with_path
update_line_cases l = elim (Bool-cases (starts_with l "  LD_LIBRARY_PATH: ")) [
  | inl e ↦ inl (rw e refl)
  | inr e ↦ elim (Bool-cases (starts_with l "  PATH: ")) [
    | inl f ↦ inr (inl (rw (e, f) refl))
    | inr f ↦ inr (inr (rw (e, f) refl))
  ]
]

update_line-update_line : (l : String) → update_line (update_line l) ≡ update_line l
unfolding update_line with_libs with_path
update_line-update_line l = elim (update_line_cases l) [
  | inl e ↦ ap update_line e ∙ sym e
  | inr (inl e) ↦ ap update_line e ∙ sym e
  | inr (inr e) ↦ ap update_line e
]

full-update_line : (l : String) → full l ≡ true → full (update_line l) ≡ true
unfolding full
full-update_line l e = elim (update_line_cases l) [
  | inl c ↦ ap full c
  | inr (inl c) ↦ ap full c
  | inr (inr c) ↦ ap full c ∙ e
]

are_lines_one : (l : String) → full l ≡ true → are_lines (l ∷ []) ≡ true
unfolding are_lines
are_lines_one l e = rw e refl

are_lines-map : (ls : List String) → are_lines ls ≡ true → are_lines (map update_line ls) ≡ true
unfolding are_lines
are_lines-map [] e = refl
are_lines-map (l ∷ []) e = elim (update_line_cases l) [
  | inl c ↦ rw c (are_lines_one libs_line (unfold full in refl))
  | inr (inl c) ↦ rw c (are_lines_one path_line (unfold full in refl))
  | inr (inr c) ↦ rw c e
]
are_lines-map (l ∷ m ∷ ls) e =
    rw (full-update_line l (ground (arith, e)), are_lines-map (m ∷ ls) (ground (arith, e))) refl

map-map : (ls : List String) → map update_line (map update_line ls) ≡ map update_line ls
map-map [] = refl
map-map (l ∷ ls) = rw (update_line-update_line l, map-map ls) refl

-- An update of a file that was updated writes the same text, be the last line ended by a newline
-- or not.
pub updated-updated : (source : String) → updated (updated source) ≡ updated source
unfolding updated
updated-updated source =
    let ls = readlines source in
    ap (λ xs. write_lines (map update_line xs))
      (readlines-write_lines (map update_line ls) (are_lines-map ls (are_lines-readlines source)))
    ∙ ap write_lines (map-map ls)
