-- ===== src/Proxy/Update/Middlewares.antt =====
-- The order of the middlewares around a client in proxy/proxy.go.
use ecommerce_gateway.Common.{◌≡◌, ◌∙◌, ap, refl, List, [], ◌∷◌, ◌++◌, Map}
use ecommerce_gateway.Config.Types.{MiddlewareConfig}
use ecommerce_gateway.Middleware.Registry.{Tripper, Factory, create}
use ecommerce_gateway.Proxy.Update.{
  Chain, chain, broken_chain, wrap_one, and_then, build_middleware,
}

and_then_assoc :
    (f g : Tripper → Chain) (c : Chain)
    → and_then f (and_then g c) ≡ and_then (λ t. and_then f (g t)) c
unfolding and_then
and_then_assoc f g (chain t) = refl
and_then_assoc f g (broken_chain e) = refl

-- Wrapping a client with one list of middlewares and the result with another is wrapping it with
-- both lists, the second in front: the middlewares of the gateway stand around those of the
-- endpoint, and the first in a list is the first to see a request.
pub build_middleware-append :
    (registry : Map Factory) (outer inner : List MiddlewareConfig) (client : Tripper)
    → build_middleware registry (outer ++ inner) client
      ≡ and_then (build_middleware registry outer) (build_middleware registry inner client)
unfolding build_middleware and_then
build_middleware-append registry [] inner client =
    left_alone (build_middleware registry inner client)
  where
    left_alone : (c : Chain) → c ≡ and_then chain c
    left_alone (chain t) = refl
    left_alone (broken_chain e) = refl
build_middleware-append registry (m ∷ outer) inner client =
    ap (and_then (wrap_one (create registry m)))
      (build_middleware-append registry outer inner client)
    ∙ and_then_assoc (wrap_one (create registry m)) (build_middleware registry outer)
        (build_middleware registry inner client)
