-- ===== src/Proxy/Update/Tests.antt =====
-- Update of proxy/proxy.go with two endpoints, one of which has no client.
use ecommerce_gateway.Common.{
  if◌then◌else◌, ◌≡◌, refl, true, false, none, some, List, [], ◌∷◌, Text, bytes, text_eq,
}
use ecommerce_gateway.Client.Node.{http}
use ecommerce_gateway.Errors.Codes.{plain}
use ecommerce_gateway.Config.Types.{MiddlewareConfig, Endpoint, Gateway}
use ecommerce_gateway.Proxy.Loop.{failed}
use ecommerce_gateway.Middleware.Registry.{Tripper}
use ecommerce_gateway.Proxy.Update.{
  Surroundings, Proxy, update, build_endpoint, build_all, take_built, empty_progress, commit,
}
use ecommerce_gateway.Proxy.Update.Laws.{
  ClosedAt, no_route, positions_of, routes_of, is_abandoned, is_made, update_lem,
}

abbrev unreachable : Tripper
unreachable r = failed (plain (bytes "connection refused"))

abbrev at_path : Text → Endpoint
at_path path = record {
  path = path;
  method = bytes "GET";
  protocol = http;
  timeout = none;
  middlewares = [];
  backends = [];
  retry = none;
  metadata = [];
  host = [];
}

abbrev env : Surroundings
env = record {
  registry = [];
  client_factory = λ e. if text_eq e.path (bytes "/a") then some unreachable else none;
  handles = λ e. true;
  json_list = λ t. none;
}

abbrev gateway : List Endpoint → Gateway
gateway endpoints = record { endpoints = endpoints; middlewares = []; envs = [] }

abbrev before : Proxy
before = record { update_count = 0; router = []; retired = []; closed = [] }

-- The update with no usable endpoint is refused.
refused_update : (update env (gateway (at_path (bytes "/b") ∷ [])) before).1 ≡ false
unfolding update build_all build_endpoint take_built empty_progress commit text_eq
refused_update = refl

update_lem_example :
    let c = gateway (at_path (bytes "/a") ∷ at_path (bytes "/b") ∷ []) in
    let r = update env c before in
    (no_route env c ≡ false
      → (r.1 ≡ true)
        × (r.0.router ≡ routes_of env [] 0 c.endpoints)
        × (r.0.retired ≡ [] ∷ [])
        × ClosedAt before r.0 (positions_of is_abandoned env [] 0 c.endpoints))
    × (no_route env c ≡ true
        → (r.1 ≡ false)
          × (r.0.router ≡ [])
          × (r.0.retired ≡ [])
          × ClosedAt before r.0 (positions_of is_made env [] 0 c.endpoints))
update_lem_example =
    update_lem env (gateway (at_path (bytes "/a") ∷ at_path (bytes "/b") ∷ [])) before

abbrev named : Text → MiddlewareConfig
named name = record { name = name; required = true; options = none; router_filter = none }
