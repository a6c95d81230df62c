-- ===== src/Middleware/Rbac/Enforcer/Tests.antt =====
-- The enforcer on an example: middleware/rbac/rbac.go.
use ecommerce_gateway.Common.{
  ◌≡◌, refl, arith, true, false, none, some, inl, inr, List, [], ◌∷◌, Text, bytes, lookup, text_eq,
  text_eq_iff, if◌then◌else◌, Bool-cases,
}
use mathlib.Core.Path.{subst}
use ecommerce_gateway.Loader.Keys.{new_local_source}
use ecommerce_gateway.Loader.Source.{Readers, Source, Event}
use ecommerce_gateway.Loader.Files.Tests.{no_faults}
use ecommerce_gateway.Loader.Watch.{Io, handle}
use ecommerce_gateway.Middleware.Rbac.Enforcer.{
  Casbin, policy_file, model_file, build_enforcer, init_enforcer, initialize_enforcer, Rbac,
  validate_file_content,
}
use ecommerce_gateway.Middleware.Rbac.Enforcer.Laws.{
  is_read, watch_file, world_of, init_enforcer-Built,
}

-- A casbin whose models are texts other than "bad", and whose enforcers are models.
abbrev casbin : Casbin Text Text
casbin = record {
  new_model = λ t. if text_eq t (bytes "bad") then none else some t;
  new_enforcer = λ m policy. some m;
  load_policy = λ e policy. none;
}

abbrev readers : Readers
readers = record { load_remote = λ cfg. inl (bytes "unused"); read_file = λ path. inr (bytes "m1") }

abbrev source : Source
source = Source.local_file (new_local_source (bytes "/etc/gateway/config.yaml"))

abbrev fresh : Rbac Text
fresh = record { initialized = false; enforcer = none; files = [] }

abbrev io : Io
io = record {
  stat = none;
  read = none;
  replacing = no_faults;
  restoring = no_faults;
  remove = none;
}

abbrev update : Text → Event
update value = record { value = value; deleted = false; err = none }

abbrev events : List (Event × Io)
events = (update (bytes "m2"), io) ∷ (update (bytes "bad"), io) ∷ []

unread :
    (p : Text)
    → is_read [] p ≡ true
    → (text_eq (bytes "d/.config-1") p ≡ false) × (text_eq (bytes "d/.config-1") p ≡ false)
unfolding model_file policy_file text_eq lookup
unread p read = elim (Bool-cases (text_eq (model_file []) p)) [
  | inl same ↦
      subst
        (λ q. (text_eq (bytes "d/.config-1") q ≡ false) × (text_eq (bytes "d/.config-1") q ≡ false))
        ((text_eq_iff (model_file []) p).0 same) (refl, refl)
  | inr other ↦
      subst
        (λ q. (text_eq (bytes "d/.config-1") q ≡ false) × (text_eq (bytes "d/.config-1") q ≡ false))
        ((text_eq_iff (policy_file []) p).0 (ground (arith, other, read))) (refl, refl)
]

init_enforcer-Built_example :
    build_enforcer casbin
      (model_file [])
      (policy_file [])
      (watch_file casbin [] true events (
        world_of casbin []
          (init_enforcer casbin readers source [] none no_faults no_faults fresh).1)).files
    ≡ inr
        (watch_file casbin [] true events (
          world_of casbin []
            (init_enforcer casbin readers source [] none no_faults no_faults fresh).1)).runtime
unfolding init_enforcer handle text_eq lookup model_file policy_file initialize_enforcer
    validate_file_content new_local_source
init_enforcer-Built_example =
    init_enforcer-Built casbin [] readers source no_faults no_faults fresh true events
      (refl, refl, refl, refl) refl refl (((refl, refl), unread), (((refl, refl), unread), tt))
      (refl, (refl, tt))
