-- ===== src/Base/Hex.antt =====
-- `bytes.hex()` and `bytes.fromhex(text)`, with bytes as numbers.
use Prim.Native.Nat.{◌/◌, ◌%◌}
use Prim.Native.Char.{Char, code}
use microstack.Base.{
  ℕ, zero, suc, ◌+◌, ◌-◌, ◌*◌, ◌<◌, String, ◌≡◌, refl, Bool, true, false, ◌&&◌, Option, none, some,
  List, [], ◌∷◌, arith, leb, ◌==ℕ◌, if◌then◌else◌, All, Bool-cases, inl, inr,
}

-- A digit below 16.
hex_digit : ℕ → Char
hex_digit n =
    if n ==ℕ 0
    then "0"
    else if n ==ℕ 1
    then "1"
    else if n ==ℕ 2
    then "2"
    else if n ==ℕ 3
    then "3"
    else if n ==ℕ 4
    then "4"
    else if n ==ℕ 5
    then "5"
    else if n ==ℕ 6
    then "6"
    else if n ==ℕ 7
    then "7"
    else if n ==ℕ 8
    then "8"
    else if n ==ℕ 9
    then "9"
    else if n ==ℕ 10
    then "a"
    else if n ==ℕ 11
    then "b"
    else if n ==ℕ 12
    then "c"
    else if n ==ℕ 13
    then "d"
    else if n ==ℕ 14
    then "e"
    else "f"

-- `data.hex()`
unfoldable pub hex : List ℕ → String
unfolding hex_digit
hex [] = ""
hex (b ∷ bytes) = String.◌∷◌ (hex_digit (b / 16)) (String.◌∷◌ (hex_digit (b % 16)) (hex bytes))

-- The value of a digit, in either case.
digit_value : ℕ → Option ℕ
digit_value c =
    if leb 48 c && leb c 57
    then some (c - 48)
    else if leb 97 c && leb c 102
    then some (c - 87)
    else if leb 65 c && leb c 70
    then some (c - 55)
    else none

abbrev byte_onto : Option ℕ → Option ℕ → Option (List ℕ) → Option (List ℕ)
byte_onto (some high) (some low) (some bytes) = some ((high * 16 + low) ∷ bytes)
byte_onto _ _ _ = none

-- `bytes.fromhex(text)`, for a text without spaces; `none` where it raises ValueError.
unfoldable pub from_hex : String → Option (List ℕ)
unfolding digit_value
from_hex String.[] = some []
from_hex (String.◌∷◌ c String.[]) = none
from_hex (String.◌∷◌ c (String.◌∷◌ d s)) =
    byte_onto (digit_value (code c)) (digit_value (code d)) (from_hex s)

abbrev is_value : Option ℕ → ℕ → Bool
is_value none n = false
is_value (some m) n = m ==ℕ n

some_of_value : (o : Option ℕ) (n : ℕ) → is_value o n ≡ true → o ≡ some n
some_of_value none n e = cc
some_of_value (some m) n e = ground arith

-- Whether each digit below a bound has its value.
read_digits : ℕ → Bool
unfolding digit_value hex_digit
read_digits zero = true
read_digits (suc bound) = is_value (digit_value (code (hex_digit bound))) bound && read_digits bound

read_digits_at :
    (bound n : ℕ)
    → n < bound
    → read_digits bound ≡ true
    → is_value (digit_value (code (hex_digit n))) n ≡ true
unfolding read_digits
read_digits_at (suc bound) n below e = elim (Bool-cases (n ==ℕ bound)) [
  | inl same ↦ let same' : n ≡ bound = ground arith in rw same' (ground arith)
  | inr other ↦ read_digits_at bound n (ground arith) (ground arith)
]
read_digits_at zero n below e = absurd (omega arith)

sixteen_digits : read_digits 16 ≡ true
unfolding read_digits
sixteen_digits = refl

digit_value-hex_digit : (n : ℕ) → n < 16 → digit_value (code (hex_digit n)) ≡ some n
digit_value-hex_digit n below = some_of_value _ n (read_digits_at 16 n below sixteen_digits)

-- The digits of bytes are read back as these bytes.
pub from_hex-hex : (bytes : List ℕ) → All (λ b. b < 256) bytes → from_hex (hex bytes) ≡ some bytes
unfolding hex from_hex
from_hex-hex [] each = refl
from_hex-hex (b ∷ bytes) each =
    rw
      (
        digit_value-hex_digit (b / 16) (omega arith),
        digit_value-hex_digit (b % 16) (omega arith),
        from_hex-hex bytes each.1,
      )
      (ground arith)
