-- ===== src/Config/Reload/Rollback.antt =====
-- What rolling the environment back restores, in config/config.go.
use ecommerce_gateway.Common.{
  ◌≡◌, ◌∙◌, ap, refl, arith, false, ◌||◌, Option, none, some, [], ◌∷◌, Text, text_eq, text_eq_iff,
  text_eq_refl, Map, lookup, lookup-insert, lookup-delete, Unique, has_byte, is_empty,
  if◌then◌else◌, Bool-cases, inl, inr,
}
use mathlib.Core.Path.{subst}
use ecommerce_gateway.Config.Reload.{set_env, EnvValue, restore_set, restore_one, rollback}

-- A key and the value that it had, which can be set again.
abbrev pub Settable : Text → EnvValue → Type 0
Settable k none = Unit
Settable k (some v) = (is_empty k || has_byte b'=' k || has_byte 0 k || has_byte 0 v) ≡ false

abbrev pub AllSettable : Map EnvValue → Type 0
AllSettable [] = Unit
AllSettable ((k, old) ∷ previous) = Settable k old × AllSettable previous

abbrev pub restored : EnvValue → Option EnvValue → Option Text
restored now none = now
restored now (some old) = old

lookup-restore_one :
    (k : Text) (old : EnvValue) (env : Map Text) (j : Text)
    → Settable k old
    → lookup j (restore_one k old env) ≡ (if text_eq k j then old else lookup j env)
unfolding restore_one restore_set set_env
lookup-restore_one k none env j h = lookup-delete k j env
lookup-restore_one k (some v) env j h = rw h (lookup-insert k j v env)

under_key :
    (k j : Text) (old now : EnvValue) (previous : Map EnvValue)
    → lookup k previous ≡ none
    → restored (if text_eq k j then old else now) (lookup j previous)
      ≡ restored now (if text_eq k j then some old else lookup j previous)
under_key k j old now previous unused = elim (Bool-cases (text_eq k j)) [
  | inl same ↦
      let e = (text_eq_iff k j).0 same in
      rw same (rw (subst (λ i. lookup i previous ≡ none) e unused) refl)
  | inr other ↦ rw other refl
]

-- Behind a rollback every saved key has its old value, and every other key the one that it has.
pub lookup-rollback :
    (previous : Map EnvValue) (env : Map Text) (j : Text)
    → Unique previous
    → AllSettable previous
    → lookup j (rollback previous env) ≡ restored (lookup j env) (lookup j previous)
unfolding rollback lookup
lookup-rollback [] env j u h = refl
lookup-rollback ((k, old) ∷ previous) env j u h =
    lookup-rollback previous (restore_one k old env) j u.1 h.1
    ∙ ap (λ o. restored o (lookup j previous)) (lookup-restore_one k old env j h.0)
    ∙ under_key k j old (lookup j env) previous u.0

-- All that stands in a map can be set again.
abbrev pub SettableAt : Map EnvValue → Type 0
SettableAt m = (j : Text) (old : EnvValue) → lookup j m ≡ some old → Settable j old

pub SettableAt-AllSettable : (m : Map EnvValue) → Unique m → SettableAt m → AllSettable m
unfolding lookup
SettableAt-AllSettable [] u h = tt
SettableAt-AllSettable ((k, old) ∷ m) u h = (
  h k old (rw (text_eq_refl k) refl),
  SettableAt-AllSettable m u.1 (λ j o found. h j o (ground (arith, text_eq_iff k j, u.0, found))),
)
