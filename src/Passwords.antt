-- ===== src/Passwords.antt =====
-- tools/init/init/credentials.py: the passwords of the services.
pub mod Words
use Prim.Native.Char.{Char}
use microstack.Base.{ℕ, zero, suc, String}

-- `string.ascii_letters + string.digits`
abbrev pub alphabet : String
alphabet = "abcdefghijklmnopqrstuvwxyzABCDEFGHIJKLMNOPQRSTUVWXYZ0123456789"

abbrev pub default_password_length : ℕ
default_password_length = 32

-- The characters from one number of the loop on; `choice` is `secrets.choice`, whose value may differ
-- from call to call.
unfoldable pub choose : (ℕ → String → Char) → ℕ → ℕ → String
choose choice i zero = ""
choose choice i (suc n) = String.◌∷◌ (choice i alphabet) (choose choice (suc i) n)

unfoldable pub generate_password : (ℕ → String → Char) → ℕ → String
unfolding choose
generate_password choice length = choose choice 0 length
