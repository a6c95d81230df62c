-- ===== src/Middleware/Rbac/Tests.antt =====
-- Decisions on examples: middleware/rbac/rbac.go.
use ecommerce_gateway.Common.{◌≡◌, refl, some, inr, [], ◌∷◌, Text, bytes, text_eq, get, lookup}
use ecommerce_gateway.Http.{Request}
use ecommerce_gateway.Errors.Codes.{kratos, err_forbidden_route}
use ecommerce_gateway.Proxy.Loop.{Outcome, failed, answered}
use ecommerce_gateway.Middleware.RouterFilter.{PathMatcher, matches}
use ecommerce_gateway.Middleware.Rbac.{Fetch, Call, Env, rbac_trip, role_of}
use ecommerce_gateway.Middleware.Rbac.Laws.{Enforced, rbac_trip-Enforced}

abbrev open_route : PathMatcher
open_route = record {
  raw_pattern = bytes "/open";
  regex = λ p. text_eq p (bytes "/open");
  methods = [];
}

abbrev env : Env
env = record {
  now = 0;
  casdoor = λ id. Fetch.user id (bytes "admin" ∷ []);
  enforce = λ role path method. inr (text_eq path (bytes "/orders"));
  owner = bytes "shop";
}

abbrev request : Text → Request
request path = record {
  method = bytes "GET";
  host = [];
  path = path;
  header = (bytes "X-Md-Global-User-Id", some (bytes "u1" ∷ [])) ∷ [];
  remote_addr = [];
  body = [];
}

-- A next tripper that answers with the headers that it gets.
abbrev next : Request → Outcome
next r = answered (record { status_code = 200; header = r.header; trailer = []; body = [] })

forbidden :
    (rbac_trip (open_route ∷ []) env next (request (bytes "/users")) []).0
    ≡ Call.returned (failed (kratos err_forbidden_route))
unfolding rbac_trip get lookup
forbidden = refl

no_role : role_of (bytes "shop/u1") [] ≡ bytes "user"
unfolding role_of
no_role = refl

rbac_trip-Enforced_example :
    Enforced env next
      (request (bytes "/orders"))
      (rbac_trip (open_route ∷ []) env next (request (bytes "/orders")) []).0
unfolding matches get text_eq lookup
rbac_trip-Enforced_example =
    rbac_trip-Enforced (open_route ∷ []) env next (request (bytes "/orders")) [] refl refl

abbrev anonymous : Request
anonymous = record (request (bytes "/orders")) { header = [] }
