-- ===== src/Passwords/Words.antt =====
-- What a generated password is not.
use Prim.Native.Char.{Char, code}
use microstack.Base.{
  ℕ, zero, suc, String, ◌==◌, ◌≡◌, ◌≢◌, refl, ap, sym, ◌∙◌, Bool, true, false, not, ◌&&◌, ◌==ℕ◌,
  List, [], ◌∷◌, any, every, length, codes, lower, strip, lstrip, rstrip, before, is_space, arith,
  Bool-cases, inl, inr,
}
use microstack.Passwords.{alphabet, choose, generate_password, default_password_length}

-- A choice from a text is one of its characters.
abbrev pub Chooses : (ℕ → String → Char) → Type 0
Chooses choice =
    (i : ℕ) (s : String) → (s == "") ≡ false → any (λ c. code (choice i s) ==ℕ c) (codes s) ≡ true

any-every :
    (p : ℕ → Bool) (n : ℕ) (cs : List ℕ)
    → any (λ c. n ==ℕ c) cs ≡ true
    → every p cs ≡ true
    → p n ≡ true
any-every p n [] e f = absurd (cc)
any-every p n (c ∷ cs) e f = elim (Bool-cases (n ==ℕ c)) [
  | inl m ↦ let same : n ≡ c = ground (arith, m) in rw same (ground (arith, f))
  | inr m ↦ any-every p n cs (ground (arith, e, m)) (ground (arith, f))
]

-- No white space in a text.
unfoldable solid : String → Bool
solid String.[] = true
solid (String.◌∷◌ c s) = not (is_space (code c)) && solid s

solid-choose :
    (choice : ℕ → String → Char) (i n : ℕ) → Chooses choice → solid (choose choice i n) ≡ true
unfolding solid choose is_space
solid-choose choice i zero chooses = refl
solid-choose choice i (suc n) chooses =
    rw
      (
        any-every (λ c. not (is_space c)) (code (choice i alphabet)) (codes alphabet)
            (chooses i alphabet refl) refl,
        solid-choose choice (suc i) n chooses,
      )
      refl

rstrip-solid : (s : String) → solid s ≡ true → rstrip s ≡ s
unfolding solid rstrip before
rstrip-solid String.[] e = refl
rstrip-solid (String.◌∷◌ c String.[]) e =
    let n : is_space (code c) ≡ false = ground (arith, e) in rw n refl
rstrip-solid (String.◌∷◌ c (String.◌∷◌ d s)) e =
    ap (before c) (rstrip-solid (String.◌∷◌ d s) (ground (arith, e)))

lstrip-solid : (s : String) → solid s ≡ true → lstrip s ≡ s
unfolding solid lstrip
lstrip-solid String.[] e = refl
lstrip-solid (String.◌∷◌ c s) e = let n : is_space (code c) ≡ false = ground (arith, e) in rw n refl

strip-solid : (s : String) → solid s ≡ true → strip s ≡ s
unfolding strip
strip-solid s e = ap lstrip (rstrip-solid s e) ∙ lstrip-solid s e

length-lower : (s : String) → length (codes (lower s)) ≡ length (codes s)
unfolding lower
length-lower String.[] = refl
length-lower (String.◌∷◌ c s) = ap suc (length-lower s)

length-choose : (choice : ℕ → String → Char) (i n : ℕ) → length (codes (choose choice i n)) ≡ n
unfolding choose
length-choose choice i zero = refl
length-choose choice i (suc n) = ap suc (length-choose choice (suc i) n)

-- A generated password.
module _ (choice : ℕ → String → Char) where
  abbrev password : String
  password = generate_password choice default_password_length

  length-password : length (codes (lower password)) ≡ 32
  unfolding generate_password
  length-password = length-lower password ∙ length-choose choice 0 32

  pub generate_password-other :
      (word : String) → (length (codes word) ==ℕ 32) ≡ false → lower password ≢ word
  generate_password-other word short e =
      let same : length (codes word) ≡ 32 = ap (λ s. length (codes s)) (sym e) ∙ length-password in
      ground (arith, short, same)

  pub strip-generate_password : Chooses choice → strip password ≡ password
  unfolding generate_password
  strip-generate_password chooses = strip-solid password (solid-choose choice 0 32 chooses)
