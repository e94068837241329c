-- ===== src/Environment/Shared.antt =====
-- The modules' `_env` against one dict.
use microstack.Base.{ℕ, ◌<◌, String, ◌≡◌, refl, Option, List, [], ◌∷◌, ◌++◌, arith}
use microstack.Base.Dict.{Dict, update}
use microstack.Environment.{
  Dicts, store, new_dict, global_config, new_env, get_env, Module, shell, questions, uninstall,
  network, Imported, import_env, import_all, Use, use_dict, run_uses,
}

-- The same uses of one dict, whichever module each is of.
unfoldable pub run_one : List (Module × Use) → Dict String → List (Option String) × Dict String
unfolding use_dict
run_one [] d = ([], d)
run_one ((m, u) ∷ us) d =
    let (read, d') = use_dict u d in let (reads, d'') = run_one us d' in (read ++ reads, d'')

-- Every module holds the dict at this address.
IsShared : ℕ → Imported → Type 0
IsShared global i = (m : Module) → i.env_of m ≡ global

store-at : (p : ℕ) (d : Dict String) (s : Dicts) → (store p d s).at p ≡ d
unfolding store
store-at p d s = ground arith

store-other : (p q : ℕ) (d : Dict String) (s : Dicts) → q < p → (store p d s).at q ≡ s.at q
unfolding store
store-other p q d s e = ground arith

import_all-IsShared : (environ : Dict String) (s : Dicts) → IsShared s.next (import_all environ s).0
unfolding IsShared import_all import_env get_env global_config new_dict new_env
import_all-IsShared environ s shell = refl
import_all-IsShared environ s questions = refl
import_all-IsShared environ s uninstall = refl
import_all-IsShared environ s network = refl

import_all-at :
    (environ : Dict String) (s : Dicts) → (import_all environ s).1.at s.next ≡ update environ []
unfolding import_all import_env get_env global_config new_dict new_env store
import_all-at environ s = ground arith

import_all-other :
    (environ : Dict String) (s : Dicts) (p : ℕ)
    → p < s.next
    → (import_all environ s).1.at p ≡ s.at p
unfolding import_all import_env get_env global_config new_dict new_env store
import_all-other environ s p e = ground arith

run_uses-IsShared :
    (i : Imported) (global : ℕ) (us : List (Module × Use)) (s : Dicts)
    → IsShared global i
    → ((run_uses i us s).0 ≡ (run_one us (s.at global)).0)
      × ((run_uses i us s).1.at global ≡ (run_one us (s.at global)).1)
      × ((p : ℕ) → p < global → (run_uses i us s).1.at p ≡ s.at p)
unfolding run_uses run_one IsShared
run_uses-IsShared i global [] s e = (refl, refl, λ p l. refl)
run_uses-IsShared i global ((m, u) ∷ us) s e =
    let d = (use_dict u (s.at global)).1 in
    let (x, y, z) = run_uses-IsShared i global us (store global d s) e in
    (
      rw (e m, x, store-at global d s) refl,
      rw (e m, y, store-at global d s) refl,
      λ p l. rw (e m, z p l, store-other global p d s l) refl,
    )

-- The modules that hold an environment of their own see one dict, which starts as a copy of the
-- environment of the process: whatever they store and read, in any order, is what they would on
-- this dict, and it is the dict that is left. No dict that was there before changes.
pub run_uses-run_one :
    (environ : Dict String) (s : Dicts) (us : List (Module × Use)) (p : ℕ)
    → p < s.next
    → let (i, s') = import_all environ s in
      ((run_uses i us s').0 ≡ (run_one us (update environ [])).0)
      × ((run_uses i us s').1.at s.next ≡ (run_one us (update environ [])).1)
      × ((run_uses i us s').1.at p ≡ s.at p)
run_uses-run_one environ s us p l =
    let (i, s') = import_all environ s in
    let (x, y, z) = run_uses-IsShared i s.next us s' (import_all-IsShared environ s) in
    (
      rw (x, import_all-at environ s) refl,
      rw (y, import_all-at environ s) refl,
      rw (z p l, import_all-other environ s p l) refl,
    )
