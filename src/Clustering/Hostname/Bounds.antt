-- ===== src/Clustering/Hostname/Bounds.antt =====
-- How long an accepted hostname and its labels are.
use microstack.Base.{
  ℕ, ◌+◌, ◌≤◌, ◌≡◌, true, ◌==ℕ◌, List, [], ◌∷◌, All, every, length, ◌⊎◌, refl, arith, Bool-cases,
  inl, inr,
}
use microstack.Clustering.Hostname.{
  last_or, but_last, chop_newline, allowed, labels, without_dot, valid_hostname,
}

length-but_last : (cs : List ℕ) → length cs ≤ length (but_last cs) + 1
unfolding but_last
length-but_last [] = omega arith
length-but_last (c ∷ []) = omega arith
length-but_last (c ∷ d ∷ cs) = omega (arith, length-but_last (d ∷ cs))

but_last_le : (cs : List ℕ) → length (but_last cs) ≤ length cs
unfolding but_last
but_last_le [] = omega arith
but_last_le (c ∷ []) = omega arith
but_last_le (c ∷ d ∷ cs) = omega (arith, but_last_le (d ∷ cs))

length-without_dot : (host : List ℕ) → length host ≤ length (without_dot host) + 1
unfolding without_dot
length-without_dot host = elim (Bool-cases (last_or 0 host ==ℕ 46)) [
  | inl e ↦ rw e (length-but_last host)
  | inr e ↦ rw e (omega arith)
]

length-chop_newline : (cs : List ℕ) → length cs ≤ length (chop_newline cs) + 1
unfolding chop_newline
length-chop_newline cs = elim (Bool-cases (last_or 0 cs ==ℕ 10)) [
  | inl e ↦ rw e (length-but_last cs)
  | inr e ↦ rw e (omega arith)
]

chop_newline_le : (cs : List ℕ) → length (chop_newline cs) ≤ length cs
unfolding chop_newline
chop_newline_le cs = elim (Bool-cases (last_or 0 cs ==ℕ 10)) [
  | inl e ↦ rw e (but_last_le cs)
  | inr e ↦ rw e (omega arith)
]

-- A label of at most 63 code points, or of one more if the last is a newline.
abbrev pub IsShort : List ℕ → Type 0
IsShort l = (1 ≤ length l) × ((length l ≤ 63) ⊎ ((last_or 0 l ≡ 10) × (length l ≤ 64)))

allowed_bounds :
    (l : List ℕ) → allowed l ≡ true → (1 ≤ length (chop_newline l)) × (length (chop_newline l) ≤ 63)
unfolding allowed
allowed_bounds l e = (ground (arith, e), ground (arith, e))

allowed-IsShort : (l : List ℕ) → allowed l ≡ true → IsShort l
allowed-IsShort l e =
    let (low, high) = allowed_bounds l e in
    let least = chop_newline_le l in
    let most = length-chop_newline l in
    elim (Bool-cases (last_or 0 l ==ℕ 10)) [
      | inl n ↦ (omega (arith, low, least), inr (ground (arith, n), omega (arith, high, most)))
      | inr n ↦
          let same : chop_newline l ≡ l = unfold chop_newline in rw n refl in
          (omega (arith, low, least), inl (rw same at high))
    ]

every-IsShort : (ls : List (List ℕ)) → every allowed ls ≡ true → All IsShort ls
every-IsShort [] e = tt
every-IsShort (l ∷ ls) e =
    (allowed-IsShort l (ground (arith, e)), every-IsShort ls (ground (arith, e)))

-- A hostname that is accepted is not empty and has at most 253 code points, or 254 with the dot at
-- its end; each of its labels has from 1 to 63 code points, or 64 if the last is a newline.
pub valid_hostname-IsShort :
    (host : List ℕ)
    → valid_hostname host ≡ true
    → (1 ≤ length host)
      × (length (without_dot host) ≤ 253)
      × (length host ≤ 254)
      × All IsShort (labels (without_dot host))
unfolding valid_hostname
valid_hostname-IsShort [] e = absurd (cc)
valid_hostname-IsShort (c ∷ cs) e =
    let short : length (without_dot (c ∷ cs)) ≤ 253 = ground (arith, e) in
    let fits = length-without_dot (c ∷ cs) in
    (
      omega arith,
      short,
      omega (arith, short, fits),
      every-IsShort (labels (without_dot (c ∷ cs))) (ground (arith, e)),
    )
