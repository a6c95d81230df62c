-- ===== src/Proxy/Loop/Tests.antt =====
-- The retry loop of proxy/proxy.go at concrete inputs.
use ecommerce_gateway.Common.{ℕ, zero, suc, ◌≤◌, ◌≡◌, refl, pos, true, none, [], ◌∷◌, bytes, length}
use ecommerce_gateway.Http.{Response}
use ecommerce_gateway.Errors.Codes.{plain}
use ecommerce_gateway.Errors.Response.{is_canceled}
use ecommerce_gateway.Proxy.Condition.{by_status_code, judge_conditions, judge}
use ecommerce_gateway.Proxy.Retry.{RetryStrategy, judge_retry_required}
use ecommerce_gateway.Proxy.Loop.{
  Outcome, failed, answered, Turn, Stats, stops_retry, run_request, reply, response_reply,
}
use ecommerce_gateway.Proxy.Loop.Laws.{Source, Earlier, trips-le-attempts, reply-Source}

abbrev unavailable : Response
unavailable = record { status_code = 503; header = []; trailer = []; body = [] }

abbrev good : Response
good = record { status_code = 200; header = []; trailer = []; body = bytes "ok" }

abbrev strategy : RetryStrategy
strategy = record {
  attempts = 3;
  timeout = pos 1;
  per_try_timeout = pos 1;
  conditions = by_status_code (pos 500 ∷ pos 599 ∷ []) ∷ [];
}

abbrev no_stats : Stats
no_stats = record { retry_success = 0; retry_failed = 0; breaker_success = 0; breaker_failed = 0 }

abbrev turn_with : Outcome → Turn
turn_with o = record { enabled = true; allows = true; expired = none; outcome = o }

-- A refused connection, a 503 and a 200.
abbrev env : ℕ → Turn
env zero = turn_with (failed (plain (bytes "connection refused")))
env (suc zero) = turn_with (answered unavailable)
env (suc (suc i)) = turn_with (answered good)

third_time : reply (run_request strategy env no_stats) ≡ response_reply good
unfolding run_request reply judge_retry_required judge_conditions judge stops_retry
third_time = refl

counted :
    (run_request strategy env no_stats).stats
    ≡ record { retry_success = 1; retry_failed = 1; breaker_success = 1; breaker_failed = 1 }
unfolding run_request judge_retry_required judge_conditions judge stops_retry is_canceled
counted = refl

trips-le-attempts_example : length (run_request strategy env no_stats).trips ≤ 3
trips-le-attempts_example = trips-le-attempts strategy env no_stats

reply-Source_example :
    Source strategy env
      (run_request strategy env no_stats).trips
      (reply (run_request strategy env no_stats))
    × Earlier strategy.conditions (run_request strategy env no_stats).trips
reply-Source_example = reply-Source strategy env no_stats
