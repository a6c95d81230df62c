-- ===== src/Middleware/Cors/Tests.antt =====
-- Origins on examples: middleware/cors/cors.go.
use ecommerce_gateway.Common.{
  ◌≡◌, refl, true, false, some, [], ◌∷◌, Text, bytes, text_eq, lookup, get, has_prefix, trim_prefix,
}
use ecommerce_gateway.Http.{Request, Parse}
use ecommerce_gateway.Proxy.Loop.{Outcome, answered}
use ecommerce_gateway.Middleware.Cors.{Cors, normalize, is_origin_allowed, cors_trip}
use ecommerce_gateway.Middleware.Cors.Laws.{Shared, cors_trip-Shared}

-- URLs that are "http://" and a host, or a bare path.
unfoldable parse : Parse
unfolding has_prefix trim_prefix
parse s = some (record {
  scheme = [];
  host = elim (has_prefix s (bytes "http://")) [
    | true ↦ trim_prefix s (bytes "http://")
    | false ↦ []
  ];
  path = s;
  is_secure_value = [];
})

abbrev options : Cors
options = record {
  allow_credentials = true;
  allow_origins = bytes "http://*.shop.com:3011" ∷ bytes "shop.com" ∷ [];
  allow_methods = bytes "GET" ∷ bytes " get" ∷ bytes "POST" ∷ [];
  allow_headers = [];
  expose_headers = [];
  max_age = some 600000000000;
  allow_private_network = true;
}

abbrev request : Text → Text → Request
request method origin = record {
  method = method;
  host = [];
  path = bytes "/";
  header = (bytes "Origin", some (origin ∷ [])) ∷ [];
  remote_addr = [];
  body = [];
}

abbrev next : Request → Outcome
next r = answered (record { status_code = 200; header = []; trailer = []; body = [] })

distinct : normalize options.allow_methods ≡ bytes "get" ∷ bytes "post" ∷ []
unfolding normalize
distinct = refl

under_domain : is_origin_allowed parse (bytes "http://A.shop.com:3011") options.allow_origins ≡ true
unfolding is_origin_allowed parse
under_domain = refl

other_port : is_origin_allowed parse (bytes "http://a.shop.com:3012") options.allow_origins ≡ false
unfolding is_origin_allowed parse
other_port = refl

cors_trip-Shared_example :
    Shared parse options next
      (request (bytes "OPTIONS") (bytes "http://evil.com"))
      (cors_trip parse options next (request (bytes "OPTIONS") (bytes "http://evil.com")))
unfolding get lookup text_eq
cors_trip-Shared_example =
    cors_trip-Shared parse options next (request (bytes "OPTIONS") (bytes "http://evil.com")) refl
