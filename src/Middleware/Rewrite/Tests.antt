-- ===== src/Middleware/Rewrite/Tests.antt =====
-- Rewriting on examples: middleware/rewrite/rewrite.go.
use ecommerce_gateway.Common.{◌≡◌, refl, none, some, [], ◌∷◌, bytes}
use ecommerce_gateway.Http.{Request}
use ecommerce_gateway.Middleware.Rewrite.{HeadersPolicy, Rewrite, strip_prefix, rewrite_request}

abbrev policy : HeadersPolicy
policy = record {
  set = (bytes "x-env", bytes "prod") ∷ [];
  add = (bytes "X-Secret", bytes "2") ∷ [];
  remove = bytes "x-secret" ∷ [];
}

abbrev options : Rewrite
options = record {
  path_rewrite = some (bytes "/api");
  host_rewrite = some (bytes "backend");
  strip_prefix = some (bytes "/shop");
  request_headers = some policy;
  response_headers = none;
}

abbrev request : Request
request = record {
  method = bytes "GET";
  host = bytes "shop.com";
  path = bytes "/shop/orders";
  header = (bytes "X-Secret", some (bytes "1" ∷ [])) ∷ [];
  remote_addr = [];
  body = [];
}

stripped : strip_prefix (bytes "/shoporders") (bytes "/shop") ≡ bytes "/orders"
unfolding strip_prefix
stripped = refl

rewritten : (rewrite_request options request).path ≡ bytes "/api/orders"
unfolding rewrite_request
rewritten = refl
