-- ===== src/Proxy/Serve.antt =====
-- The handlers that a request passes on its way to an endpoint: proxy/auth/auth.go, ServeHTTP of
-- proxy/proxy.go and of router/mux/mux.go, and the handlers of a request that no route takes.
mod Laws
mod Tests
use ecommerce_gateway.Common.{
  ℕ, Bool, true, false, Option, none, some, List, [], ◌∷◌, Text, bytes, text_eq, has_prefix, Map,
  lookup, if◌then◌else◌,
}
use ecommerce_gateway.Http.{Request}
use ecommerce_gateway.Errors.Codes.{
  KratosError, err_forbidden_route, err_internal_server, err_bad_gateway, err_route_not_found,
  err_method_not_allowed,
}
use ecommerce_gateway.Router.Mux.{clean_path, is_protected}

-- How a handler ends: it returns with its answer, or it panics, with the answer that it had begun
-- to send, if it had.
pub data Ending (A : Type 0) : Type 0 where
  returns : A → Ending A
  panics : (begun : Option A) → Ending A

-- What the client gets: the answer of a handler, an error that Write answers with its metadata, or
-- an answer that a panic breaks off, with the body of such an error behind it.
pub data Sent (A : Type 0) : Type 0 where
  answered : A → Sent A
  wrote : KratosError → Map Text → Sent A
  broke_off : A → KratosError → Sent A

-- What gorilla/mux makes of a request: a route, by its number; a redirect of its own; or nothing,
-- for lack of a path or of a method.
pub data RouteMatch (A : Type 0) : Type 0 where
  metrics_route : RouteMatch A
  endpoint_route : ℕ → RouteMatch A
  redirect : A → RouteMatch A
  not_found : RouteMatch A
  method_mismatch : RouteMatch A

abbrev pub path_of : Request → Map Text
path_of r = (bytes "path", r.path) ∷ []

abbrev pub is_auth_path : Text → Bool
is_auth_path path = has_prefix path (bytes "/auth")

module _ {A : Type 0} where
  -- The deferred functions of both servers, with the error that each one writes.
  unfoldable pub recover : KratosError → Ending A → Sent A
  recover e (Ending.returns a) = Sent.answered a
  recover e (Ending.panics none) = Sent.wrote e []
  recover e (Ending.panics (some a)) = Sent.broke_off a e

  -- notFoundHandler
  abbrev pub not_found_handler : Request → Sent A
  not_found_handler r = Sent.wrote err_route_not_found (path_of r)

  -- methodNotAllowedHandler
  abbrev pub method_not_allowed_handler : Request → Sent A
  method_not_allowed_handler r = Sent.wrote err_method_not_allowed (path_of r)

  -- ProtectedHandler, around a handler.
  unfoldable pub protected_handler : (Request → Sent A) → Request → Sent A
  unfolding is_protected
  protected_handler h r = if is_protected r then Sent.wrote err_forbidden_route [] else h r

  -- No handler at the path is a nil function, whose call panics.
  unfoldable pub call_handler : Option (Request → Ending A) → Request → Ending A
  call_handler none r = Ending.panics none
  call_handler (some h) r = h r

  -- authService.ServeHTTP
  unfoldable pub auth_serve : Map (Request → Ending A) → Request → Sent A
  unfolding call_handler recover lookup
  auth_serve handlers r = recover err_internal_server (call_handler (lookup r.path handlers) r)

  -- Handler of proxy/auth.
  unfoldable pub auth_handler :
      Map (Request → Ending A) → (origin : Request → Sent A) → Request → Sent A
  unfolding protected_handler auth_serve has_prefix
  auth_handler handlers origin r =
      if is_auth_path r.path then protected_handler (auth_serve handlers) r else origin r

  module _ (metrics : Request → Ending A) (endpoints : ℕ → Request → Ending A) where
    unfoldable pub serve_match : RouteMatch A → Request → Sent A
    unfolding recover protected_handler
    serve_match RouteMatch.metrics_route r =
        protected_handler (λ q. recover err_bad_gateway (metrics q)) r
    serve_match (RouteMatch.endpoint_route n) r = recover err_bad_gateway (endpoints n r)
    serve_match (RouteMatch.redirect a) r = Sent.answered a
    serve_match RouteMatch.not_found r = not_found_handler r
    serve_match RouteMatch.method_mismatch r = method_not_allowed_handler r

    -- ServeHTTP of the router.
    unfoldable pub serve_mux : (choose : Request → RouteMatch A) → Request → Sent A
    unfolding serve_match clean_path
    serve_mux choose r =
        let cleaned = record r { path = clean_path r.path } in serve_match (choose cleaned) cleaned

    -- The whole handler of the gateway, without its debugging and its tracing.
    unfoldable pub serve :
        Map (Request → Ending A) → (choose : Request → RouteMatch A) → Request → Sent A
    unfolding auth_handler serve_mux
    serve handlers choose r = auth_handler handlers (serve_mux choose) r
