-- ===== src/Base/Apart.antt =====
-- Texts with a known beginning: when they differ from a text, and when they are a setting.
use Prim.Native.Char.{Char, code}
use text.Mathlib.TextLemmas.{nil-append, cons-append, cons-eq-cons, nil≢cons}
use microstack.Base.{
  String, ◌<>◌, ◌==◌, eq_iff, ◌≡◌, ◌≢◌, refl, ap, ◌∙◌, Bool, true, false, ◌&&◌, not, Option, none,
  some, ◌==ℕ◌, if◌then◌else◌, Bool-cases, inl, inr, arith,
}

-- Whether a text that begins with the first differs from the second for certain.
unfoldable pub apart : String → String → Bool
apart String.[] t = false
apart (String.◌∷◌ c p) String.[] = true
apart (String.◌∷◌ c p) (String.◌∷◌ d t) =
    let rest = apart p t in if code c ==ℕ code d then rest else true

apart-ne : (p t s : String) → apart p t ≡ true → t ≢ (p <> s)
unfolding apart
apart-ne String.[] t s a e = absurd (cc)
apart-ne (String.◌∷◌ c p) String.[] s a e = nil≢cons (e ∙ cons-append c p s)
apart-ne (String.◌∷◌ c p) (String.◌∷◌ d t) s a e =
    let (same, rest) = cons-eq-cons.0 (e ∙ cons-append c p s) in
    apart-ne p t s (ground (arith, ap code same)) rest

-- A text with such a beginning is not the other text.
pub apart-append : (p t s : String) → apart p t ≡ true → (t == (p <> s)) ≡ false
apart-append p t s a = elim (Bool-cases (t == (p <> s))) [
  | inl e ↦ absurd (apart-ne p t s a ((eq_iff t (p <> s)).0 e))
  | inr e ↦ e
]

-- A setting `key=value` of `snapctl set`, at its first equals sign.
unfoldable pub onto_key : Char → Option (String × String) → Option (String × String)
onto_key c none = none
onto_key c (some (k, v)) = some (String.◌∷◌ c k, v)

unfoldable pub split_setting : String → Option (String × String)
unfolding onto_key
split_setting String.[] = none
split_setting (String.◌∷◌ c s) =
    let rest = split_setting s in if code c ==ℕ b'=' then some ("", s) else onto_key c rest

unfoldable pub is_key : String → Bool
is_key String.[] = true
is_key (String.◌∷◌ c k) = not (code c ==ℕ b'=') && is_key k

pub split_setting-assign :
    (k v : String) → is_key k ≡ true → split_setting (k <> ("=" <> v)) ≡ some (k, v)
unfolding is_key split_setting
split_setting-assign String.[] v e =
    rw (nil-append ("=" <> v)) (rw (cons-append "=" String.[] v, nil-append v) refl)
split_setting-assign (String.◌∷◌ c k) v e =
    rw (cons-append c k ("=" <> v)) (elim (Bool-cases (code c ==ℕ b'=')) [
      | inl n ↦ absurd (ground (arith, n, e))
      | inr n ↦ rw (n, split_setting-assign k v (ground (arith, n, e))) (unfold onto_key in refl)
    ])
