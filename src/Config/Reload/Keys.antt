-- ===== src/Config/Reload/Keys.antt =====
-- The loop of applyEnvs in config/config.go: what is saved, what is set and what is restored.
use ecommerce_gateway.Common.{
  ◌≡◌, ◌∙◌, ap, sym, refl, arith, Bool, true, false, ◌||◌, Option, none, some, [], ◌∷◌, Text,
  text_eq, text_eq_iff, text_eq_refl, Map, lookup, insert, lookup-insert, Unique, insert-Unique,
  has_byte, is_empty, if◌then◌else◌, Bool-cases, inl, inr,
}
use mathlib.Core.Path.{subst}
use ecommerce_gateway.Config.Reload.{
  set_env, EnvValue, rollback, Applied, applied, rolled_back, apply_keys,
}
use ecommerce_gateway.Config.Reload.Rollback.{
  Settable, restored, lookup-rollback, SettableAt, SettableAt-AllSettable,
}

-- Going through a map meets each of its entries once.
abbrev pub IsRange : (Map EnvValue → Map EnvValue) → Type 0
IsRange range =
    (m : Map EnvValue)
    → Unique m
    → Unique (range m) × ((j : Text) → lookup j (range m) ≡ lookup j m)

-- Two environments with the same values.
abbrev pub SameEnv : Map Text → Map Text → Type 0
SameEnv a b = (j : Text) → lookup j a ≡ lookup j b

-- The keys and values of an environment can be set.
abbrev pub IsEnvironment : Map Text → Type 0
IsEnvironment env = (k : Text) (v : Text) → lookup k env ≡ some v → Settable k (some v)

pub record Saved (start env : Map Text) (previous : Map EnvValue) : Type 0 where
  pub unique : Unique previous
  pub back : (j : Text) → restored (lookup j env) (lookup j previous) ≡ lookup j start
  pub settable : SettableAt previous

pub rollback-SameEnv :
    (range : Map EnvValue → Map EnvValue) (start env : Map Text) (previous : Map EnvValue)
    → IsRange range
    → Saved start env previous
    → SameEnv (rollback (range previous) env) start
rollback-SameEnv range start env previous r s j =
    let o = r previous s.unique in
    lookup-rollback (range previous) env j o.0 (
      SettableAt-AllSettable (range previous) o.0
        (λ i old found. s.settable i old (sym (o.1 i) ∙ found)))
    ∙ ap (restored (lookup j env)) (o.1 j)
    ∙ s.back j

-- A key that is not saved has the value that it had at first.
unsaved :
    (start env : Map Text) (previous : Map EnvValue) (k : Text)
    → lookup k previous ≡ none
    → Saved start env previous
    → lookup k env ≡ lookup k start
unsaved start env previous k unused s =
    subst (λ o. restored (lookup k env) o ≡ lookup k start) unused (s.back k)

start-Settable :
    (start : Map Text) (k : Text) (old : EnvValue)
    → IsEnvironment start
    → lookup k start ≡ old
    → Settable k old
start-Settable start k none valid at = tt
start-Settable start k (some v) valid at = valid k v at

back-insert :
    (start env : Map Text) (previous : Map EnvValue) (k v j : Text)
    → lookup k previous ≡ none
    → Saved start env previous
    → restored
        (if text_eq k j then some v else lookup j env)
        (if text_eq k j then some (lookup k env) else lookup j previous)
      ≡ lookup j start
back-insert start env previous k v j unused s = elim (Bool-cases (text_eq k j)) [
  | inl same ↦
      rw same (
        unsaved start env previous k unused s ∙ ap (λ i. lookup i start) ((text_eq_iff k j).0 same))
  | inr other ↦ rw other (s.back j)
]

from_some : EnvValue → Option EnvValue → EnvValue
from_some default none = default
from_some default (some old) = old

Settable-insert :
    (start env : Map Text) (previous : Map EnvValue) (k j : Text) (old : EnvValue)
    → IsEnvironment start
    → lookup k previous ≡ none
    → Saved start env previous
    → (if text_eq k j then some (lookup k env) else lookup j previous) ≡ some old
    → Settable j old
unfolding from_some
Settable-insert start env previous k j old valid unused s found = elim (Bool-cases (text_eq k j)) [
  | inl same ↦
      let e = (text_eq_iff k j).0 same in
      let taken =
        ap (λ b. from_some (lookup k env) (if b then some (lookup k env) else lookup j previous))
          (sym same)
        ∙ ap (from_some (lookup k env)) found in
      start-Settable start j old valid
        (ap (λ i. lookup i start) (sym e) ∙ sym (unsaved start env previous k unused s) ∙ taken)
  | inr other ↦
      s.settable j old
        (ap (λ b. if b then some (lookup k env) else lookup j previous) (sym other) ∙ found)
]

insert-Saved :
    (start env : Map Text) (previous : Map EnvValue) (k v : Text)
    → IsEnvironment start
    → lookup k previous ≡ none
    → Saved start env previous
    → Saved start (insert k v env) (insert k (lookup k env) previous)
insert-Saved start env previous k v valid unused s = record {
  unique = insert-Unique k (lookup k env) previous s.unique;
  back = λ j.
      rw (lookup-insert k j v env, lookup-insert k j (lookup k env) previous)
        (back-insert start env previous k v j unused s);
  settable = λ j old found.
      Settable-insert start env previous k j old valid unused s
        (sym (lookup-insert k j (lookup k env) previous) ∙ found);
}

-- The value of a key behind setting some keys.
abbrev pub overlay : Option Text → Option Text → Option Text
overlay (some v) old = some v
overlay none old = old

abbrev pub Outcome : Map Text → Map Text → Map Text → Applied → Type 0
Outcome start keys env (applied env' previous) =
    Saved start env' previous
    × ((j : Text) → lookup j env' ≡ overlay (lookup j keys) (lookup j env))
Outcome start keys env (rolled_back env') = SameEnv env' start

overlay-cons :
    (env keys : Map Text) (k v j : Text)
    → lookup k keys ≡ none
    → overlay (lookup j keys) (if text_eq k j then some v else lookup j env)
      ≡ overlay (if text_eq k j then some v else lookup j keys) (lookup j env)
overlay-cons env keys k v j fresh = elim (Bool-cases (text_eq k j)) [
  | inl same ↦
      rw same (rw (subst (λ i. lookup i keys ≡ none) ((text_eq_iff k j).0 same) fresh) refl)
  | inr other ↦ rw other refl
]

cons-Outcome :
    (start env keys : Map Text) (k v : Text) (a : Applied)
    → lookup k keys ≡ none
    → Outcome start keys (insert k v env) a
    → Outcome start ((k, v) ∷ keys) env a
unfolding lookup
cons-Outcome start env keys k v (applied env' previous) fresh (saved, values) =
    (saved, λ j. values j ∙ rw (lookup-insert k j v env) (overlay-cons env keys k v j fresh))
cons-Outcome start env keys k v (rolled_back env') fresh same = same

abbrev refuses : Text → Text → Bool
refuses k v = is_empty k || has_byte b'=' k || has_byte 0 k || has_byte 0 v

set_env-refused : (k v : Text) (env : Map Text) → refuses k v ≡ true → set_env env k v ≡ none
unfolding set_env
set_env-refused k v env h = rw h refl

set_env-accepted :
    (k v : Text) (env : Map Text) → refuses k v ≡ false → set_env env k v ≡ some (insert k v env)
unfolding set_env
set_env-accepted k v env h = rw h refl

apply_keys-refused :
    (range : Map EnvValue → Map EnvValue) (k v : Text) (keys env : Map Text)
    (previous : Map EnvValue)
    → refuses k v ≡ true
    → rolled_back (rollback (range previous) env) ≡ apply_keys range ((k, v) ∷ keys) env previous
unfolding apply_keys
apply_keys-refused range k v keys env previous h = rw (apply_keys, set_env-refused k v env h) refl

apply_keys-set :
    (range : Map EnvValue → Map EnvValue) (k v : Text) (keys env : Map Text)
    (previous : Map EnvValue)
    → refuses k v ≡ false
    → apply_keys range keys (insert k v env) (insert k (lookup k env) previous)
      ≡ apply_keys range ((k, v) ∷ keys) env previous
unfolding apply_keys
apply_keys-set range k v keys env previous h = rw (apply_keys, set_env-accepted k v env h) refl

fresh-insert :
    (env keys : Map Text) (previous : Map EnvValue) (k v j w : Text)
    → lookup k keys ≡ none
    → ((i u : Text) → lookup i ((k, v) ∷ keys) ≡ some u → lookup i previous ≡ none)
    → lookup j keys ≡ some w
    → lookup j (insert k (lookup k env) previous) ≡ none
unfolding lookup
fresh-insert env keys previous k v j w unused fresh found =
    ground
      (arith, unused, found, text_eq_iff k j, fresh j w, lookup-insert k j (lookup k env) previous)

pub apply_keys-Outcome :
    (range : Map EnvValue → Map EnvValue) (start keys env : Map Text) (previous : Map EnvValue)
    → IsRange range
    → IsEnvironment start
    → Unique keys
    → ((j v : Text) → lookup j keys ≡ some v → lookup j previous ≡ none)
    → Saved start env previous
    → Outcome start keys env (apply_keys range keys env previous)
unfolding apply_keys lookup
apply_keys-Outcome range start [] env previous r valid u fresh s = (s, λ j. refl)
apply_keys-Outcome range start ((k, v) ∷ keys) env previous r valid u fresh s =
    elim (Bool-cases (refuses k v)) [
      | inl refused ↦
          subst (Outcome start ((k, v) ∷ keys) env)
            (apply_keys-refused range k v keys env previous refused)
            (rollback-SameEnv range start env previous r s)
      | inr accepted ↦
          subst (Outcome start ((k, v) ∷ keys) env)
            (apply_keys-set range k v keys env previous accepted)
            (cons-Outcome start env keys k v
              (apply_keys range keys (insert k v env) (insert k (lookup k env) previous)) u.0
              (apply_keys-Outcome range start keys (insert k v env)
                (insert k (lookup k env) previous) r valid u.1
                (λ j w. fresh-insert env keys previous k v j w u.0 fresh)
                (insert-Saved start env previous k v valid (fresh k v (rw (text_eq_refl k) refl))
                  s)))
    ]
