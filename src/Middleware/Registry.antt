-- ===== src/Middleware/Registry.antt =====
-- middleware/middleware.go and middleware/registry.go: middlewares as functions on trippers, and
-- the registry that creates them from the configuration.
mod Laws
mod Tests
use ecommerce_gateway.Common.{
  Option, none, some, Text, bytes, Map, lookup, insert, to_lower, ◌++◌, if◌then◌else◌,
}
use ecommerce_gateway.Http.{Request}
use ecommerce_gateway.Errors.Codes.{Err}
use ecommerce_gateway.Config.Types.{MiddlewareConfig}
use ecommerce_gateway.Proxy.Loop.{Outcome}

-- http.RoundTripper, and the Process of a middleware.
abbrev pub Tripper : Type 0
Tripper = Request → Outcome

abbrev pub Middleware : Type 0
Middleware = Tripper → Tripper

-- What a factory returns, and what Create returns, where ErrNotFound is a case of its own.
pub data Creation : Type 0 where
  made : Middleware → Creation
  refused : Err → Creation
  not_found : Creation

pub data Product : Type 0 where
  product : Middleware → Product
  fault : Err → Product

abbrev pub Factory : Type 0
Factory = MiddlewareConfig → Product

pub empty_middleware : Middleware
empty_middleware next = next

pub create_full_name : Text → Text
create_full_name name = to_lower (bytes "gateway.middleware." ++ name)

pub register : Map Factory → Text → Factory → Map Factory
unfolding create_full_name
register registry name factory = insert (create_full_name name) factory registry

get_middleware : Map Factory → Text → Option Factory
get_middleware registry name = lookup (to_lower name) registry

-- An error is passed on if the middleware is required, and otherwise an empty one is made.
pub creation_of : MiddlewareConfig → Product → Creation
unfolding empty_middleware
creation_of cfg (product m) = made m
creation_of cfg (fault e) = if cfg.required then refused e else made empty_middleware

creation_from : MiddlewareConfig → Option Factory → Creation
unfolding creation_of
creation_from cfg none = not_found
creation_from cfg (some factory) = creation_of cfg (factory cfg)

pub create : Map Factory → MiddlewareConfig → Creation
unfolding get_middleware create_full_name creation_from
create registry cfg = creation_from cfg (get_middleware registry (create_full_name cfg.name))
