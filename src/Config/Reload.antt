-- ===== src/Config/Reload.antt =====
-- applyEnvs and executeLoader of config/config.go: a new configuration is applied to the process's
-- environment and to the handlers, and kept as the last good one only if all of that succeeds.
mod Sorting
mod Rollback
mod Keys
pub mod Laws
mod Tests
use ecommerce_gateway.Common.{
  ℕ, Bool, true, false, not, ◌&&◌, ◌||◌, Option, none, some, List, [], ◌∷◌, Text, text_eq,
  text_less, Map, lookup, insert, delete, is_empty, ltb, ◌==◌, has_byte, if◌then◌else◌,
}
use ecommerce_gateway.Config.Types.{Gateway}

-- os.Setenv, which refuses a key that is empty or has `=` or NUL, and a value that has NUL.
pub set_env : Map Text → Text → Text → Option (Map Text)
unfolding has_byte
set_env env k v =
    if is_empty k || has_byte b'=' k || has_byte 0 k || has_byte 0 v
    then none
    else some (insert k v env)

-- envValue: the value that a key had, or that it was not set.
abbrev pub EnvValue : Type 0
EnvValue = Option Text

restore_set : Option (Map Text) → Map Text → Map Text
restore_set none env = env
restore_set (some env') env = env'

restore_one : Text → EnvValue → Map Text → Map Text
unfolding restore_set set_env
restore_one k none env = delete k env
restore_one k (some v) env = restore_set (set_env env k v) env

-- rollback, over the saved values in some order; a value that cannot be set is left.
pub rollback : Map EnvValue → Map Text → Map Text
unfolding restore_one
rollback [] env = env
rollback ((k, old) ∷ previous) env = rollback previous (restore_one k old env)

pub data Applied : Type 0 where
  applied : Map Text → Map EnvValue → Applied
  rolled_back : Map Text → Applied

-- The loop over the keys; `range` is the order in which Go goes through a map.
pub apply_keys : (Map EnvValue → Map EnvValue) → Map Text → Map Text → Map EnvValue → Applied
unfolding set_env
apply_keys range [] env previous = applied env previous
apply_keys range ((k, v) ∷ keys) env previous =
    let rest = apply_keys range keys in
    elim (set_env env k v) [
      | none ↦ rolled_back (rollback (range previous) env)
      | some env' ↦ rest env' (insert k (lookup k env) previous)
    ]

-- sort.Strings on the keys.
insert_sorted : Text → Text → Map Text → Map Text
unfolding text_less
insert_sorted k v [] = (k, v) ∷ []
insert_sorted k v ((j, w) ∷ m) =
    let rest = insert_sorted k v m in if text_less j k then (j, w) ∷ rest else (k, v) ∷ (j, w) ∷ m

pub sort_keys : Map Text → Map Text
unfolding insert_sorted
sort_keys [] = []
sort_keys ((k, v) ∷ m) = insert_sorted k v (sort_keys m)

pub apply_envs : (Map EnvValue → Map EnvValue) → Map Text → Map Text → Applied
unfolding apply_keys
apply_envs range envs env = apply_keys range (sort_keys envs) env []

-- The fields of the loader that a reload changes. The sums stand for the data here.
pub record FileLoader : Type 0 where
  pub config_data : Text
  pub priority_config_hash : Map Text

all_succeed : List (Gateway → Bool) → Gateway → Bool
all_succeed [] c = true
all_succeed (fn ∷ handlers) c = let rest = all_succeed handlers c in fn c && rest

after_envs :
    (Map EnvValue → Map EnvValue)
    → Bool
    → Text
    → Map Text
    → Map Text
    → FileLoader
    → Applied
    → FileLoader × (Map Text × Bool)
after_envs range succeeded content hash env f (rolled_back env') = (f, (env', false))
after_envs range succeeded content hash env f (applied env' previous) =
    if succeeded
    then (record { config_data = content; priority_config_hash = hash }, (env', true))
    else (f, (rollback (range previous) env', false))

-- executeLoader: the loader and the environment behind it, and whether there was no error.
-- `decode` is decodeConfig; a handler says whether it took the configuration.
pub execute_loader :
    (Map EnvValue → Map EnvValue)
    → (Text → Option Gateway)
    → List (Gateway → Bool)
    → Text
    → Map Text
    → FileLoader
    → Map Text
    → FileLoader × (Map Text × Bool)
unfolding after_envs all_succeed
execute_loader range decode handlers content hash f env = elim (decode content) [
  | none ↦ (f, (env, false))
  | some c ↦
      after_envs range (all_succeed handlers c) content hash env f (apply_envs range c.envs env)
]
