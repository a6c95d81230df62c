-- ===== src/Middleware/Registry/Tests.antt =====
-- The registry of middleware/registry.go with one factory.
use ecommerce_gateway.Common.{
  ◌≡◌, refl, Bool, true, none, [], Text, bytes, to_lower, text_eq, lookup, insert,
}
use ecommerce_gateway.Errors.Codes.{plain}
use ecommerce_gateway.Config.Types.{MiddlewareConfig}
use ecommerce_gateway.Middleware.Registry.{
  refused, Factory, fault, register, create, creation_of, create_full_name, get_middleware,
  creation_from,
}

abbrev failing : Factory
failing cfg = fault (plain (bytes "no key"))

abbrev named : Text → Bool → MiddlewareConfig
named name required = record {
  name = name;
  required = required;
  options = none;
  router_filter = none;
}

required_fails :
    create (register [] (bytes "jwt") failing) (named (bytes "JWT") true)
    ≡ refused (plain (bytes "no key"))
unfolding create register create_full_name get_middleware creation_from creation_of to_lower lookup
    insert text_eq
required_fails = refl
