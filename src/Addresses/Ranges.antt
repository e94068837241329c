-- ===== src/Addresses/Ranges.antt =====
-- The range of the default network, from the parts of the gateway.
use Prim.Native.Char.{code}
use text.Mathlib.TextLemmas.{nil-append, cons-append}
use microstack.Base.{
  ℕ, String, ◌<>◌, ◌≡◌, refl, ◌∙◌, ap, Bool, true, ◌&&◌, not, ◌==ℕ◌, List, [], ◌∷◌, ◌++◌, split,
  decimal, arith, Bool-cases, inl, inr, every,
}
use microstack.Addresses.{set_last, join_dots, cidr_of}

-- A part of an address: no dot in it.
unfoldable pub no_dot : String → Bool
no_dot String.[] = true
no_dot (String.◌∷◌ c s) = not (code c ==ℕ b'.') && no_dot s

split-no_dot : (s : String) → no_dot s ≡ true → split b'.' s ≡ s ∷ []
unfolding split no_dot
split-no_dot String.[] e = refl
split-no_dot (String.◌∷◌ c s) e = elim (Bool-cases (code c ==ℕ b'.')) [
  | inl n ↦ absurd (ground (arith, n, e))
  | inr n ↦ rw (n, split-no_dot s (ground (arith, n, e))) refl
]

split-dot : (s t : String) → no_dot s ≡ true → split b'.' (s <> ("." <> t)) ≡ s ∷ split b'.' t
unfolding split no_dot
split-dot String.[] t e =
    rw (nil-append ("." <> t)) (rw (cons-append "." String.[] t, nil-append t) refl)
split-dot (String.◌∷◌ c s) t e =
    rw (cons-append c s ("." <> t)) (elim (Bool-cases (code c ==ℕ b'.')) [
      | inl n ↦ absurd (ground (arith, n, e))
      | inr n ↦ rw (n, split-dot s t (ground (arith, n, e))) refl
    ])

split-join_dots :
    (p : String) (ps : List String)
    → every no_dot (p ∷ ps) ≡ true
    → split b'.' (join_dots (p ∷ ps)) ≡ p ∷ ps
unfolding join_dots
split-join_dots p [] e = split-no_dot p (ground (arith, e))
split-join_dots p (q ∷ ps) e =
    split-dot p _ (ground (arith, e)) ∙ ap (λ l. p ∷ l) (split-join_dots q ps (ground (arith, e)))

set_last-append :
    (last part : String) (parts : List String)
    → set_last last (parts ++ (part ∷ [])) ≡ parts ++ (last ∷ [])
unfolding set_last
set_last-append last part [] = refl
set_last-append last part (p ∷ []) = refl
set_last-append last part (p ∷ q ∷ ps) = ap (λ l. p ∷ l) (set_last-append last part (q ∷ ps))

-- The range is the text of the same parts, but for the last, which is 0 and the number of bits:
-- the textual split and join of the code is this function of the parts.
pub cidr_of-join_dots :
    (parts : List String) (part : String) (bits : ℕ)
    → every no_dot (parts ++ (part ∷ [])) ≡ true
    → cidr_of (join_dots (parts ++ (part ∷ []))) bits
      ≡ join_dots (parts ++ (("0/" <> decimal bits) ∷ []))
unfolding cidr_of
cidr_of-join_dots [] part bits e = rw (split-join_dots part [] e) refl
cidr_of-join_dots (p ∷ ps) part bits e =
    rw (split-join_dots p (ps ++ (part ∷ [])) e)
      (ap join_dots (set_last-append ("0/" <> decimal bits) part (p ∷ ps)))
