-- ===== src/Middleware/CircuitBreaker/Tests.antt =====
-- The breaker on examples: middleware/circuitbreaker/circuitbreaker.go.
use ecommerce_gateway.Common.{ℕ, suc, ◌≡◌, refl, ◌&&◌, leb, inr, [], bytes, if◌then◌else◌}
use ecommerce_gateway.Http.{Request}
use ecommerce_gateway.Errors.Codes.{plain}
use ecommerce_gateway.Proxy.Loop.{Outcome, failed, answered}
use ecommerce_gateway.Middleware.CircuitBreaker.{
  Sre, Breaker, Action, allow, mark_request, breaker_trip, make_on_break_handler, unavailable,
}
use ecommerce_gateway.Middleware.CircuitBreaker.Laws.{succeeds, breaker_trip_lem}

-- A breaker that denies from the third failure in a row.
abbrev lib : Sre ℕ
lib = record { allow = λ n. (leb n 2, n); mark_success = λ n. 0; mark_failed = λ n. suc n }

abbrev request : Request
request = record {
  method = bytes "GET";
  host = [];
  path = bytes "/";
  header = [];
  remote_addr = [];
  body = [];
}

abbrev down : Request → Outcome
down r = failed (plain (bytes "connection refused"))

abbrev backup : Request → Outcome
backup r = answered (record { status_code = 200; header = []; trailer = []; body = bytes "cached" })

denied : breaker_trip lib [] backup down 0 (Breaker.sre 3) request ≡ (backup request, Breaker.sre 4)
unfolding breaker_trip
denied = refl

default_action :
    make_on_break_handler (λ e. inr down) Action.unknown_action ≡ inr (λ r. answered unavailable)
unfolding make_on_break_handler
default_action = refl

breaker_trip_lem_example : breaker_trip lib [] backup down 0 (Breaker.sre 1) request ≡ (
  (if (allow lib 0 (Breaker.sre 1)).0 then down request else backup request),
  mark_request lib
      ((allow lib 0 (Breaker.sre 1)).0 && succeeds [] (down request))
      (allow lib 0 (Breaker.sre 1)).1,
)
breaker_trip_lem_example = breaker_trip_lem lib [] backup down 0 (Breaker.sre 1) request
