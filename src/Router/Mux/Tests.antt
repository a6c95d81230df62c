-- ===== src/Router/Mux/Tests.antt =====
-- Paths and matchers of router/mux/mux.go on examples.
use ecommerce_gateway.Common.{◌≡◌, refl, true, false, bytes}
use ecommerce_gateway.Router.Mux.{clean_path, matcher_of, matches_path}

climbing_path : clean_path (bytes "/a/../../b/") ≡ bytes "/b/"
unfolding clean_path
climbing_path = refl

-- A gRPC route takes the methods of its service and of the packages below it, not those of a
-- service whose name only begins alike.
grpc_service_only :
    matches_path
      (λ t p. false)
      (λ t p. false)
      (matcher_of (bytes "/shop.Cart*") (bytes "grpc"))
      (bytes "/shop.CartV2/Get")
    ≡ false
unfolding matches_path matcher_of
grpc_service_only = refl

grpc_service_method :
    matches_path
      (λ t p. false)
      (λ t p. false)
      (matcher_of (bytes "/shop.Cart*") (bytes "grpc"))
      (bytes "/shop.Cart/Get")
    ≡ true
unfolding matches_path matcher_of
grpc_service_method = refl
