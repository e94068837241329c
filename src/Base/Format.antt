-- ===== src/Base/Format.antt =====
-- `text.format(**env)` for fields of the form `{NAME}`.
use Prim.Native.Char.{code}
use microstack.Base.{String, ◌<>◌, ◌==ℕ◌, Option, none, some, if◌then◌else◌}
use microstack.Base.Dict.{Dict, lookup}

-- A format that was filled in, a field that is missing (KeyError), or a brace with no partner.
pub data Formatted : Type 0 where
  filled : String → Formatted
  missing : String → Formatted
  malformed : Formatted

-- A text in front of a result.
abbrev pub onto : String → Formatted → Formatted
onto s (filled t) = filled (s <> t)
onto s other = other

-- Outside a field, or inside one with the characters of its name so far.
pub data Mode : Type 0 where
  outside : Mode
  inside : String → Mode

abbrev look : Option String → String → Formatted → Formatted
look none name rest = missing name
look (some v) name rest = onto v rest

go : Dict String → Mode → String → Formatted
go env outside String.[] = filled ""
go env (inside name) String.[] = malformed
go env outside (String.◌∷◌ c s) =
    let field = go env (inside "") s in
    let plain = onto (String.◌∷◌ c "") (go env outside s) in
    if code c ==ℕ b'{' then field else if code c ==ℕ b'}' then malformed else plain
go env (inside name) (String.◌∷◌ c s) =
    let close = look (lookup name env) name (go env outside s) in
    let more = go env (inside (name <> String.◌∷◌ c "")) s in
    if code c ==ℕ b'}' then close else more

-- Doubled braces, attributes and format specifications do not occur in the texts of the tools.
unfoldable pub format : Dict String → String → Formatted
unfolding go lookup
format env s = go env outside s
