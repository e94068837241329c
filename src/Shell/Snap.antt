-- ===== src/Shell/Snap.antt =====
-- The snap configuration that a history leaves: the last value that `snapctl set` gave each key.
use microstack.Base.{
  All, ◌++◌, false, String, ◌<>◌, ◌==◌, ◌≡◌, refl, ap, ◌∙◌, true, Option, none, some, List, [], ◌∷◌,
  if◌then◌else◌, map, Bool, ◌&&◌, arith,
}
use microstack.Base.Apart.{split_setting, split_setting-assign, is_key}
use microstack.Machine.{Event, command, History}
use microstack.Shell.{assign}

-- A configuration: the text under each key.
abbrev pub Snap : Type 0
Snap = String → Option String

-- A key with a value, over a configuration.
unfoldable pub put : String → String → Snap → Snap
put key value m k = if key == k then some value else m k

-- A value that may be missing: without one the configuration stays.
unfoldable pub put_some : String → Option String → Snap → Snap
unfolding put
put_some key none m = m
put_some key (some value) m = put key value m

put_setting : Option (String × String) → Snap → Snap
unfolding put
put_setting none m = m
put_setting (some (key, value)) m = put key value m

-- The settings of one command, from left to right.
put_all : List String → Snap → Snap
unfolding put_setting
put_all [] m = m
put_all (kv ∷ kvs) m = put_all kvs (put_setting (split_setting kv) m)

unfoldable pub after_command : List String → Snap → Snap
unfolding put_all
after_command (program ∷ verb ∷ kvs) m =
    let set = put_all kvs m in
    if program == "snapctl" then (if verb == "set" then set else m) else m
after_command _ m = m

-- The configuration after a history whose commands were accepted, over one before it.
unfoldable pub snap : Snap → History → Snap
unfolding after_command
snap m [] = m
snap m (command args ∷ log) = after_command args (snap m log)
snap m (e ∷ log) = snap m log

-- `snapctl set`
abbrev pub is_set : Event → Bool
is_set (command (program ∷ verb ∷ rest)) = program == "snapctl" && verb == "set"
is_set _ = false

-- Not an event that stores something.
abbrev pub Keeps : Event → Type 0
Keeps e = is_set e ≡ false

-- Events that set nothing leave the configuration.
pub snap-Keeps : (m : Snap) (e : Event) (log : History) → Keeps e → snap m (e ∷ log) ≡ snap m log
unfolding snap after_command
snap-Keeps m (command (program ∷ verb ∷ kvs)) log k = ground arith
snap-Keeps m e log k = refl

pub snap-append :
    (m : Snap) (new : List Event) (log : History) → All Keeps new → snap m (new ++ log) ≡ snap m log
snap-append m [] log k = refl
snap-append m (e ∷ new) log k = snap-Keeps m e (new ++ log) k.0 ∙ snap-append m new log k.1

pub snap-set :
    (m : Snap) (key value : String) (log : History)
    → is_key key ≡ true
    → snap m (command ("snapctl" ∷ "set" ∷ (key <> ("=" <> value)) ∷ []) ∷ log)
      ≡ put key value (snap m log)
unfolding snap put_all put_setting
snap-set m key value log e = rw (split_setting-assign key value e) refl

pub snap-set_two :
    (m : Snap) (k₁ v₁ k₂ v₂ : String) (log : History)
    → is_key k₁ ≡ true
    → is_key k₂ ≡ true
    → snap m (command ("snapctl" ∷ "set" ∷ (k₁ <> ("=" <> v₁)) ∷ (k₂ <> ("=" <> v₂)) ∷ []) ∷ log)
      ≡ put k₂ v₂ (put k₁ v₁ (snap m log))
unfolding snap put_all put_setting
snap-set_two m k₁ v₁ k₂ v₂ log e f =
    rw (split_setting-assign k₁ v₁ e, split_setting-assign k₂ v₂ f) refl

-- Keys with their values, from left to right.
unfoldable pub put_each : List (String × String) → Snap → Snap
unfolding put
put_each [] m = m
put_each ((key, value) ∷ kvs) m = put_each kvs (put key value m)

-- No key has an equals sign.
unfoldable pub all_keys : List (String × String) → Bool
all_keys [] = true
all_keys ((key, value) ∷ kvs) = is_key key && all_keys kvs

put_all-assign :
    (kvs : List (String × String)) (m : Snap)
    → all_keys kvs ≡ true
    → put_all (map assign kvs) m ≡ put_each kvs m
unfolding put_all put_each put_setting all_keys
put_all-assign [] m e = refl
put_all-assign ((key, value) ∷ kvs) m e =
    ap (λ o. put_all (map assign kvs) (put_setting o m))
      (split_setting-assign key value (ground (arith, e)))
    ∙ put_all-assign kvs (put key value m) (ground (arith, e))

-- A command of several settings whose keys have no equals sign.
pub snap-set_all :
    (m : Snap) (kvs : List (String × String)) (log : History)
    → all_keys kvs ≡ true
    → snap m (command ("snapctl" ∷ "set" ∷ map assign kvs) ∷ log) ≡ put_each kvs (snap m log)
unfolding snap
snap-set_all m kvs log e = put_all-assign kvs (snap m log) e
