-- ===== src/Proxy/Update.antt =====
-- Update, buildEndpoint and buildMiddleware of proxy/proxy.go, with the router's table and its
-- closers in router/mux/mux.go: how a configuration becomes a router, and what is closed. A client
-- is named by the update that made it and the position of its endpoint.
pub mod Laws
mod Middlewares
mod Tests
use ecommerce_gateway.Common.{
  ℕ, suc, ◌+◌, Bool, true, false, not, ◌&&◌, ◌||◌, Option, none, some, List, [], ◌∷◌, ◌++◌, Text,
  Map, is_empty, if◌then◌else◌, ◌==◌,
}
use ecommerce_gateway.Errors.Codes.{Err}
use ecommerce_gateway.Config.Types.{MiddlewareConfig, Endpoint, Gateway}
use ecommerce_gateway.Middleware.Registry.{
  Tripper, Middleware, Factory, Creation, made, refused, not_found, create,
}
use ecommerce_gateway.Proxy.Retry.{RetryStrategy, prepare_retry_strategy}

-- What surrounds the proxy: the registered middlewares, the client of an endpoint, whether the
-- router takes a route, and the JSON decoding of header values.
pub record Surroundings : Type 0 where
  pub registry : Map Factory
  pub client_factory : Endpoint → Option Tripper
  pub handles : Endpoint → Bool
  pub json_list : Text → Option (List Text)

pub data Chain : Type 0 where
  chain : Tripper → Chain
  broken_chain : Err → Chain

wrap_one : Creation → Tripper → Chain
wrap_one (made m) next = chain (m next)
wrap_one not_found next = chain next
wrap_one (refused e) next = broken_chain e

pub and_then : (Tripper → Chain) → Chain → Chain
and_then f (chain t) = f t
and_then f (broken_chain e) = broken_chain e

-- buildMiddleware: the last middleware is wrapped first, and one that is not found is left out.
pub build_middleware : Map Factory → List MiddlewareConfig → Tripper → Chain
unfolding wrap_one and_then
build_middleware registry [] next = chain next
build_middleware registry (m ∷ ms) next =
    and_then (wrap_one (create registry m)) (build_middleware registry ms next)

pub record Handler : Type 0 where
  pub tripper : Tripper
  pub strategy : RetryStrategy

-- What buildEndpoint returns; with `abandoned` a client was made and closed again.
pub data Built : Type 0 where
  no_client abandoned : Built
  built : Handler → Built

with_strategy : Option RetryStrategy → Tripper → Built
with_strategy none t = abandoned
with_strategy (some strategy) t = built (record { tripper = t; strategy = strategy })

with_chain : Surroundings → Endpoint → Chain → Built
unfolding with_strategy
with_chain env e (broken_chain err) = abandoned
with_chain env e (chain t) = with_strategy (prepare_retry_strategy env.json_list e) t

pub build_endpoint : Surroundings → List MiddlewareConfig → Endpoint → Built
unfolding with_chain and_then
build_endpoint env ms e = elim (env.client_factory e) [
  | none ↦ no_client
  | some client ↦ with_chain env e (
      and_then (build_middleware env.registry ms)
        (build_middleware env.registry e.middlewares client))
]

pub record Route : Type 0 where
  pub position : ℕ
  pub endpoint : Endpoint
  pub handler : Handler

-- The variables of Update: the routes of the new router, the closers that are deferred (the latest
-- first), the clients that were closed, and the count of successes.
pub record Progress : Type 0 where
  pub routes : List Route
  pub deferred : List ℕ
  pub closed : List ℕ
  pub success_count : ℕ

take_built : Surroundings → ℕ → Endpoint → Built → Progress → Progress
take_built env i e no_client s = s
take_built env i e abandoned s = record s { closed = i ∷ s.closed }
take_built env i e (built h) s =
    if env.handles e
    then record s {
      deferred = i ∷ s.deferred;
      routes = s.routes ++ record { position = i; endpoint = e; handler = h } ∷ [];
      success_count = s.success_count + 1;
    }
    else record s { deferred = i ∷ s.deferred }

build_all : Surroundings → List MiddlewareConfig → ℕ → List Endpoint → Progress → Progress
unfolding take_built
build_all env ms i [] s = s
build_all env ms i (e ∷ es) s =
    build_all env ms (i + 1) es (take_built env i e (build_endpoint env ms e) s)

-- Proxy.router, the routers that wait for their requests to end, and all clients that were closed.
pub record Proxy : Type 0 where
  pub update_count : ℕ
  pub router : List Route
  pub retired : List (List Route)
  pub closed : List (ℕ × ℕ)

pub all_of : ℕ → List ℕ → List (ℕ × ℕ)
all_of u [] = []
all_of u (i ∷ is) = (u, i) ∷ all_of u is

empty_progress : Progress
empty_progress = record { routes = []; deferred = []; closed = []; success_count = 0 }

commit : Gateway → Progress → Proxy → Proxy × Bool
unfolding all_of
commit c s p =
    if (s.success_count == 0) && not (is_empty c.endpoints)
    then (
      record p {
        update_count = p.update_count + 1;
        closed = all_of p.update_count (s.deferred ++ s.closed) ++ p.closed;
      },
      false,
    )
    else (
      record p {
        update_count = p.update_count + 1;
        router = s.routes;
        retired = p.router ∷ p.retired;
        closed = all_of p.update_count s.closed ++ p.closed;
      },
      true,
    )

-- Update; the answer is whether it returns no error.
pub update : Surroundings → Gateway → Proxy → Proxy × Bool
unfolding build_all commit empty_progress
update env c p = commit c (build_all env c.middlewares 0 c.endpoints empty_progress) p
