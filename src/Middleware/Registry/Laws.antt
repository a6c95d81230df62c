-- ===== src/Middleware/Registry/Laws.antt =====
-- What Create of middleware/registry.go finds.
use ecommerce_gateway.Common.{
  ℕ, ◌≡◌, ◌∙◌, ap, refl, arith, Bool, true, false, Option, some, [], ◌∷◌, ◌++◌, Text, bytes,
  text_eq, Map, lookup-insert, to_lower, lower_byte, if◌then◌else◌,
}
use ecommerce_gateway.Config.Types.{MiddlewareConfig}
use ecommerce_gateway.Middleware.Registry.{
  Factory, create_full_name, register, get_middleware, creation_of, creation_from, create,
}

lower_byte-twice : (c : ℕ) → lower_byte (lower_byte c) ≡ lower_byte c
lower_byte-twice c = ground arith

to_lower_idempotent : (t : Text) → to_lower (to_lower t) ≡ to_lower t
unfolding to_lower
to_lower_idempotent [] = refl
to_lower_idempotent (c ∷ t) =
    rw (lower_byte-twice c) (ap (λ r. lower_byte c ∷ r) (to_lower_idempotent t))

text_eq-create_full_name :
    (a b : Text)
    → text_eq (create_full_name a) (create_full_name b) ≡ text_eq (to_lower a) (to_lower b)
unfolding create_full_name to_lower text_eq
text_eq-create_full_name a b = refl

to_lower-create_full_name : (b : Text) → to_lower (create_full_name b) ≡ create_full_name b
unfolding create_full_name
to_lower-create_full_name b = to_lower_idempotent (bytes "gateway.middleware." ++ b)

if_map :
    (cfg : MiddlewareConfig) (b : Bool) (x y : Option Factory)
    → creation_from cfg (if b then x else y)
      ≡ (if b then creation_from cfg x else creation_from cfg y)
if_map cfg true x y = refl
if_map cfg false x y = refl

get_middleware-register :
    (registry : Map Factory) (a b : Text) (factory : Factory)
    → get_middleware (register registry a factory) (create_full_name b) ≡ (
        if text_eq (to_lower a) (to_lower b)
        then some factory
        else get_middleware registry (create_full_name b))
unfolding get_middleware register
get_middleware-register registry a b factory =
    lookup-insert (create_full_name a) (to_lower (create_full_name b)) factory registry
    ∙ ap (λ c. if c then some factory else get_middleware registry (create_full_name b))
        (ap (text_eq (create_full_name a)) (to_lower-create_full_name b)
          ∙ text_eq-create_full_name a b)

-- A middleware is found by the name under which it was registered last, whatever the letters'
-- case: a required one that cannot be made is an error, an optional one is left out, and names
-- other than the registered one are looked up as before.
pub create-register :
    (registry : Map Factory) (name : Text) (factory : Factory) (cfg : MiddlewareConfig)
    → create (register registry name factory) cfg ≡ (
        if text_eq (to_lower name) (to_lower cfg.name)
        then creation_of cfg (factory cfg)
        else create registry cfg)
unfolding create creation_from
create-register registry name factory cfg =
    ap (creation_from cfg) (get_middleware-register registry name cfg.name factory)
    ∙ if_map cfg (text_eq (to_lower name) (to_lower cfg.name)) (some factory)
        (get_middleware registry (create_full_name cfg.name))
