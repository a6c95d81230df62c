-- ===== src/Proxy/Serve/Tests.antt =====
-- The path of a request to its handler on examples: proxy/proxy.go and proxy/auth/auth.go.
use ecommerce_gateway.Common.{
  ◌≡◌, refl, is_empty, has_prefix, ℕ, some, [], Text, bytes, text_eq, get, if◌then◌else◌,
}
use ecommerce_gateway.Http.{Request}
use ecommerce_gateway.Errors.Codes.{err_internal_server, err_bad_gateway}
use ecommerce_gateway.Proxy.Serve.Laws.{IsAuthAnswer, serve-IsAuthAnswer}
use ecommerce_gateway.Proxy.Serve.{Ending, Sent, RouteMatch, serve}

abbrev request_to : Text → Request
request_to path = record {
  method = bytes "GET";
  host = bytes "shop";
  path = path;
  header = [];
  remote_addr = bytes "10.0.0.1:9";
  body = [];
}

abbrev metrics : Request → Ending ℕ
metrics r = Ending.returns 0

-- The second endpoint panics behind the first bytes of its answer.
abbrev endpoints : ℕ → Request → Ending ℕ
endpoints n r = if text_eq r.path (bytes "/carts") then Ending.returns 7 else Ending.panics (some 8)

abbrev choose : Request → RouteMatch ℕ
choose r = RouteMatch.endpoint_route 1

-- An endpoint below "/authors" is out of reach.
authors :
    serve metrics endpoints [] choose (request_to (bytes "/authors"))
    ≡ Sent.wrote err_internal_server []
unfolding serve get
authors = refl

carts : serve metrics endpoints [] choose (request_to (bytes "/x/../carts")) ≡ Sent.answered 7
unfolding serve text_eq
carts = refl

broken :
    serve metrics endpoints [] choose (request_to (bytes "/orders"))
    ≡ Sent.broke_off 8 err_bad_gateway
unfolding serve text_eq
broken = refl

-- Another table, which has nothing for the empty path.
abbrev choose_rooted : Request → RouteMatch ℕ
choose_rooted r = if is_empty r.path then RouteMatch.not_found else RouteMatch.endpoint_route 1

serve-IsAuthAnswer_example :
    IsAuthAnswer metrics endpoints []
      (request_to (bytes "/authors"))
      (serve metrics endpoints [] choose (request_to (bytes "/authors")))
unfolding has_prefix
serve-IsAuthAnswer_example =
    serve-IsAuthAnswer metrics endpoints [] choose (request_to (bytes "/authors")) refl
