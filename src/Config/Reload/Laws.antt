-- ===== src/Config/Reload/Laws.antt =====
-- A reload in config/config.go takes effect as a whole or not at all.
use ecommerce_gateway.Common.{
  ◌≡◌, ◌∙◌, ap, refl, arith, Bool, true, false, ◌⊎◌, Option, none, some, List, [], Text, Map,
  lookup, Unique, inl, inr, Option-cases,
}
use ecommerce_gateway.Config.Types.{Gateway}
use ecommerce_gateway.Config.Reload.{
  EnvValue, Applied, applied, rolled_back, apply_keys, sort_keys, apply_envs, FileLoader,
  all_succeed, after_envs, execute_loader,
}
use ecommerce_gateway.Config.Reload.Sorting.{lookup-sort_keys, sort_keys-Unique}
use ecommerce_gateway.Config.Reload.Keys.{
  IsRange, SameEnv, IsEnvironment, overlay, Outcome, rollback-SameEnv, apply_keys-Outcome,
}

-- What a reload comes to: the new data are kept and the environment has the new values besides its
-- own, or the data and the environment are as they were.
abbrev pub Atomic :
    Map Text → Text → Map Text → FileLoader → Map Text → FileLoader × (Map Text × Bool) → Type 0
Atomic envs content hash f env r =
    ((r.1.1 ≡ true)
      × (r.0.config_data ≡ content)
      × (r.0.priority_config_hash ≡ hash)
      × ((j : Text) → lookup j r.1.0 ≡ overlay (lookup j envs) (lookup j env)))
    ⊎ ((r.1.1 ≡ false) × (r.0 ≡ f) × SameEnv r.1.0 env)

after_envs-Atomic :
    (range : Map EnvValue → Map EnvValue) (succeeded : Bool) (envs : Map Text) (content : Text)
    (hash : Map Text) (f : FileLoader) (env : Map Text) (a : Applied)
    → IsRange range
    → Unique envs
    → Outcome env (sort_keys envs) env a
    → Atomic envs content hash f env (after_envs range succeeded content hash env f a)
unfolding after_envs
after_envs-Atomic range succeeded envs content hash f env (rolled_back env') r u same =
    inr (refl, refl, same)
after_envs-Atomic range true envs content hash f env (applied env' previous) r u (saved, values) =
    inl (
      refl,
      refl,
      refl,
      λ j. values j ∙ ap (λ o. overlay o (lookup j env)) (lookup-sort_keys envs j u),
    )
after_envs-Atomic range false envs content hash f env (applied env' previous) r u (saved, values) =
    inr (refl, refl, rollback-SameEnv range env env' previous r saved)

-- Data that cannot be decoded change nothing. Otherwise, when the keys of the configuration's
-- variables are different and the values of the environment can be set again, a reload either
-- succeeds, keeps the new data and sets the variables besides the others, or it fails and leaves
-- the data and every variable as they were, whether a variable could not be set or a handler
-- refused, in any order in which Go goes through the saved values.
pub execute_loader-Atomic :
    (range : Map EnvValue → Map EnvValue) (decode : Text → Option Gateway)
    (handlers : List (Gateway → Bool)) (content : Text) (hash : Map Text) (f : FileLoader)
    (env : Map Text)
    → IsRange range
    → IsEnvironment env
    → let r = execute_loader range decode handlers content hash f env in
      (decode content ≡ none → r ≡ (f, (env, false)))
      × ((c : Gateway)
          → decode content ≡ some c
          → Unique c.envs
          → Atomic c.envs content hash f env r)
unfolding execute_loader apply_envs lookup
execute_loader-Atomic range decode handlers content hash f env r valid = (
  λ broken. rw (execute_loader, broken) refl,
  λ c decoded u.
      rw (execute_loader, decoded)
        (after_envs-Atomic range (all_succeed handlers c) c.envs content hash f env
          (apply_keys range (sort_keys c.envs) env []) r u
          (apply_keys-Outcome range env (sort_keys c.envs) env [] r valid
            (sort_keys-Unique c.envs u) (λ j v h. refl)
            (record {
              unique = tt;
              back = λ j. refl;
              settable = λ j old h. absurd (ground arith);
            }))),
)

after_envs-data :
    (range : Map EnvValue → Map EnvValue) (succeeded : Bool) (content : Text) (hash env : Map Text)
    (f : FileLoader) (r : Applied)
    → ((after_envs range succeeded content hash env f r).0 ≡ f)
      ⊎ ((after_envs range succeeded content hash env f r).0.config_data ≡ content)
unfolding after_envs
after_envs-data range succeeded content hash env f (rolled_back env') = inl refl
after_envs-data range true content hash env f (applied env' previous) = inr refl
after_envs-data range false content hash env f (applied env' previous) = inl refl

-- A reload keeps the loader's data, or takes data that decode.
pub execute_loader-data :
    (range : Map EnvValue → Map EnvValue) (decode : Text → Option Gateway)
    (handlers : List (Gateway → Bool)) (content : Text) (hash : Map Text) (f : FileLoader)
    (env : Map Text)
    → ((execute_loader range decode handlers content hash f env).0 ≡ f)
      ⊎ (((execute_loader range decode handlers content hash f env).0.config_data ≡ content)
          × ((c : Gateway) × (decode content ≡ some c)))
unfolding execute_loader
execute_loader-data range decode handlers content hash f env =
    elim (Option-cases (decode content)) [
      | inl broken ↦ rw (execute_loader, broken) (inl refl)
      | inr (c, decoded) ↦
          rw (execute_loader, decoded)
            (elim (after_envs-data range (all_succeed handlers c) content hash env f
              (apply_envs range c.envs env)) [
                | inl kept ↦ inl kept
                | inr new ↦ inr (new, (c, refl))
              ])
    ]
