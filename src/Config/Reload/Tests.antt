-- ===== src/Config/Reload/Tests.antt =====
-- A reload of config/config.go with two variables.
use ecommerce_gateway.Common.{
  ◌≡◌, refl, arith, sym, ◌∙◌, Bool, true, false, none, some, Option, List, [], ◌∷◌, Text, bytes,
  Map, lookup, insert, delete, text_eq, text_less, Unique, has_byte, any, is_empty, if◌then◌else◌,
  text_eq_iff, ap, Bool-cases, inl, inr,
}
use mathlib.Core.Path.{subst}
use ecommerce_gateway.Config.Types.{Gateway}
use ecommerce_gateway.Config.Reload.{
  EnvValue, FileLoader, execute_loader, after_envs, apply_envs, apply_keys, sort_keys,
  insert_sorted, set_env, rollback, restore_one, restore_set, all_succeed,
}
use ecommerce_gateway.Config.Reload.Rollback.{Settable}
use ecommerce_gateway.Config.Reload.Keys.{IsRange, IsEnvironment}
use ecommerce_gateway.Config.Reload.Laws.{Atomic, execute_loader-Atomic}

abbrev in_order : Map EnvValue → Map EnvValue
in_order m = m

in_order-IsRange : IsRange in_order
in_order-IsRange m u = (u, λ j. refl)

abbrev envs : Map Text
envs = (bytes "ZONE", bytes "b") ∷ (bytes "MODE", bytes "new") ∷ []

abbrev process : Map Text
process = (bytes "MODE", bytes "old") ∷ []

process-IsEnvironment : IsEnvironment process
unfolding lookup text_eq has_byte any
process-IsEnvironment k v found = elim (Bool-cases (text_eq (bytes "MODE") k)) [
  | inl same ↦
      let value = ap (λ b. if b then some (bytes "old") else none) (sym same) ∙ found in
      subst (λ i. Settable i (some v)) ((text_eq_iff (bytes "MODE") k).0 same)
        (subst (Settable (bytes "MODE")) value refl)
  | inr other ↦ absurd (ground (arith, other, found))
]

abbrev gateway : Gateway
gateway = record { endpoints = []; middlewares = []; envs = envs }

abbrev decode : Text → Option Gateway
decode content = if is_empty content then none else some gateway

abbrev loader : FileLoader
loader = record { config_data = bytes "v1"; priority_config_hash = [] }

abbrev refusing : List (Gateway → Bool)
refusing = (λ c. true) ∷ (λ c. false) ∷ []

-- A handler refuses: MODE has its old value again, and ZONE is not set.
refused :
    execute_loader in_order decode refusing (bytes "v2") [] loader process
    ≡ (loader, (process, false))
unfolding execute_loader after_envs apply_envs apply_keys sort_keys insert_sorted text_less set_env
    rollback restore_one restore_set all_succeed lookup insert delete text_eq has_byte any
refused = refl

execute_loader-Atomic_example :
    let r = execute_loader in_order decode refusing (bytes "v2") [] loader process in
    (decode (bytes "v2") ≡ none → r ≡ (loader, (process, false)))
    × ((c : Gateway)
        → decode (bytes "v2") ≡ some c
        → Unique c.envs
        → Atomic c.envs (bytes "v2") [] loader process r)
execute_loader-Atomic_example =
    execute_loader-Atomic in_order decode refusing (bytes "v2") [] loader process in_order-IsRange
      process-IsEnvironment
