-- ===== src/Question/Answers.antt =====
-- An answer through the snap configuration: what is stored, read back and validated again.
use microstack.Base.{
  String, ◌==◌, eq_iff, ◌≡◌, ◌≢◌, refl, Bool, true, false, ◌⊎◌, inl, inr, Bool-cases, arith, lower,
  strip,
}
use microstack.Machine.Monad.{ok}
use microstack.Question.{
  Kind, boolean, string, Answer, nothing, flag, text, value, validate, from_config, to_config,
}

-- The kinds whose answers the configuration keeps.
abbrev pub IsStored : Kind → Type 0
IsStored boolean = Unit
IsStored string = Unit
IsStored _ = ⊥

-- A text that the configuration gives back as it is.
abbrev pub IsPlain : Answer → Type 0
IsPlain nothing = ⊥
IsPlain (value s) = ⊥
IsPlain (flag b) = Unit
IsPlain (text s) =
    (lower (strip s) ≢ "true") × (lower (strip s) ≢ "false") × (lower (strip s) ≢ "null")

from_config_plain : (s : String) → IsPlain (text s) → from_config s ≡ text s
unfolding from_config
from_config_plain s p = ground (
  arith,
  eq_iff (lower (strip s)) "true",
  eq_iff (lower (strip s)) "false",
  eq_iff (lower (strip s)) "null",
)

boolean_valid :
    (s : String) (v : Answer)
    → validate boolean (text s) ≡ ok (v, true)
    → (v ≡ flag true) ⊎ (v ≡ flag false)
unfolding validate
boolean_valid s v h = ground arith

string_valid :
    (s : String) (v : Answer)
    → validate string (text s) ≡ ok (v, true)
    → IsPlain v
    → (v ≡ text s) × ((lower s == "nil") ≡ false)
unfolding validate
string_valid s v h p = elim (Bool-cases (lower s == "nil")) [
  | inl e ↦ ground arith
  | inr e ↦ (ground arith, e)
]

string_again :
    (s : String) → (lower s == "nil") ≡ false → validate string (text s) ≡ ok (text s, true)
unfolding validate
string_again s f = rw f

string_reload :
    (s : String)
    → IsPlain (text s)
    → (lower s == "nil") ≡ false
    → validate string (from_config (to_config string (text s))) ≡ ok (text s, true)
unfolding to_config
string_reload s p f = rw (from_config_plain s p) (string_again s f)

boolean_reload :
    (b : Bool) → validate boolean (from_config (to_config boolean (flag b))) ≡ ok (flag b, true)
unfolding validate from_config to_config lower strip
boolean_reload true = refl
boolean_reload false = refl

-- An answer that was found valid, stored by `_save` and read by `_load`, is found valid again and
-- is the same answer, if it is a bool or a text other than true, false and null.
pub validate-reload :
    (k : Kind) (a v : Answer)
    → IsStored k
    → validate k a ≡ ok (v, true)
    → IsPlain v
    → validate k (from_config (to_config k v)) ≡ ok (v, true)
unfolding validate
validate-reload boolean (text s) v st h p = elim (boolean_valid s v h) [
  | inl e ↦ rw e (boolean_reload true)
  | inr e ↦ rw e (boolean_reload false)
]
validate-reload boolean a v st h p = cc
validate-reload string (text s) v st h p =
    let (e, f) = string_valid s v h p in rw e (string_reload s (rw e at p) f)
validate-reload string a v st h p = cc
validate-reload _ a v st h p = absurd st
