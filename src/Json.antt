-- ===== src/Json.antt =====
-- The documents that `json.loads` returns, and Python's truth of such a value.
use microstack.Base.{ℕ, zero, String, Bool, true, false, Option, none, some, ◌==◌, not}
use microstack.Base.{if◌then◌else◌}

mutual
  pub data Json : Type 0 where
    null : Json
    bool : Bool → Json
    num : ℕ → Json
    str : String → Json
    arr : Items → Json
    obj : Fields → Json

  pub data Items : Type 0 where
    nil : Items
    cons : Json → Items → Items

  pub data Fields : Type 0 where
    end : Fields
    field : String → Json → Fields → Fields

-- `fields.get(k)`. A document that repeats a key was read with its last value only.
unfoldable pub get : String → Fields → Option Json
get k end = none
get k (field j v fs) = if j == k then some v else get k fs

-- `bool(value)`
unfoldable pub truthy : Json → Bool
truthy null = false
truthy (bool b) = b
truthy (num zero) = false
truthy (num _) = true
truthy (str s) = not (s == "")
truthy (arr nil) = false
truthy (arr _) = true
truthy (obj end) = false
truthy (obj _) = true

-- `value == text`
unfoldable pub is_str : String → Json → Bool
is_str s (str t) = t == s
is_str s _ = false
