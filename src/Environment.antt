-- ===== src/Environment.antt =====
-- tools/init/init/config.py: the class Env, whose instances share one dict, and the modules of
-- tools/init that hold it as `_env`.
pub mod Shared
use microstack.Base.{ℕ, suc, String, ◌==ℕ◌, Option, List, [], ◌∷◌, ◌++◌, if◌then◌else◌}
use microstack.Base.Dict.{Dict, lookup, insert, update}

-- The dicts of the process by their addresses; `next` is the first free one.
pub record Dicts : Type 0 where
  pub next : ℕ
  pub at : ℕ → Dict String

-- An instance of Env, by the address of its `__dict__`.
pub record Env : Type 0 where
  pub fields : ℕ

unfoldable pub store : ℕ → Dict String → Dicts → Dicts
store p d s = record s { at = λ q. if p ==ℕ q then d else s.at q }

-- `{}`
unfoldable pub new_dict : Dicts → ℕ × Dicts
unfolding store
new_dict s = (s.next, store s.next [] (record s { next = suc s.next }))

-- The body of the class, on `os.environ`: the address is that of `_global_config`.
unfoldable pub global_config : Dict String → Dicts → ℕ × Dicts
unfolding new_dict
global_config environ s = let (p, s') = new_dict s in (p, store p (update environ (s'.at p)) s')

-- `Env()`: an instance comes with a dict of its own, which `__init__` lets go.
unfoldable pub new_env : ℕ → Dicts → Env × Dicts
unfolding new_dict
new_env global s = let (_, s') = new_dict s in (record { fields = global }, s')

-- `get_env`, the dict itself and no copy.
unfoldable pub get_env : Env → ℕ
get_env e = e.fields

-- The modules that run `_env = Env().get_env()`.
pub data Module : Type 0 where
  shell questions uninstall network : Module

-- The `_env` of each.
pub record Imported : Type 0 where
  pub env_of : Module → ℕ

-- One such line.
unfoldable pub import_env : ℕ → Dicts → ℕ × Dicts
unfolding new_env get_env
import_env global s = let (e, s') = new_env global s in (get_env e, s')

abbrev choose : ℕ → ℕ → ℕ → ℕ → Module → ℕ
choose a b c d shell = a
choose a b c d questions = b
choose a b c d uninstall = c
choose a b c d network = d

-- The imports of a tool.
unfoldable pub import_all : Dict String → Dicts → Imported × Dicts
unfolding global_config import_env
import_all environ s =
    let (global, s₀) = global_config environ s in
    let (a, s₁) = import_env global s₀ in
    let (b, s₂) = import_env global s₁ in
    let (c, s₃) = import_env global s₂ in
    let (d, s₄) = import_env global s₃ in (record { env_of = choose a b c d }, s₄)

-- `_env[key] = value` and `_env.get(key)`
pub data Use : Type 0 where
  sets : String → String → Use
  gets : String → Use

-- What a module's use of its `_env` does, and what it reads.
unfoldable pub use_dict : Use → Dict String → List (Option String) × Dict String
use_dict (sets key value) d = ([], insert key value d)
use_dict (gets key) d = (lookup key d ∷ [], d)

-- Uses of the modules, one after the other.
unfoldable pub run_uses : Imported → List (Module × Use) → Dicts → List (Option String) × Dicts
unfolding use_dict store
run_uses i [] s = ([], s)
run_uses i ((m, u) ∷ us) s =
    let (read, d) = use_dict u (s.at (i.env_of m)) in
    let (reads, s') = run_uses i us (store (i.env_of m) d s) in (read ++ reads, s')
