-- ===== src/Client/RoundTrip.antt =====
-- client/client.go: one request sent to the nodes that the selector chooses. The selector and the
-- upstream servers are the environment; a choice of a node is named by its attempt, and so is the
-- DoneFunc that comes with it.
pub mod Laws
mod Tests
use ecommerce_gateway.Common.{
  ℕ, zero, suc, ◌+◌, Bool, true, false, Option, none, some, List, [], ◌∷◌, ◌++◌, map, Text, bytes,
  select,
}
use ecommerce_gateway.Http.{Response}
use ecommerce_gateway.Errors.Codes.{Err}
use ecommerce_gateway.Client.Node.{Node}
use ecommerce_gateway.Client.Health.{HealthChecker, is_healthy, mark_unhealthy}
use ecommerce_gateway.Middleware.Request.{RequestOptions}

-- A selector.NodeFilter, and the filters in the order in which they are given.
abbrev pub Filter : Type 0
Filter = List Node → List Node

-- What selector.Select returns.
pub data Choice : Type 0 where
  no_node : Err → Choice
  chosen : Node → Choice

-- What http.Client.Do returns.
pub data Answer : Type 0 where
  broken : Err → Answer
  answered : Response → Answer

pub record Env : Type 0 where
  pub choose : ℕ → List Filter → Choice
  pub answer : ℕ → Node → Answer

pub record Trip : Type 0 where
  pub options : RequestOptions
  pub health_check : Option HealthChecker
  pub last_err : Option Err
  pub last_done : Option ℕ
  -- the choices that were made, and those whose DoneFunc has been called, the latest first
  pub choices : List ℕ
  pub done_calls : List ℕ

pub data Result : Type 0 where
  response : Response → Result
  error : Err → Result
  -- a nil response and a nil error
  nothing : Result

health_filters : Option HealthChecker → List Filter
health_filters none = []
health_filters (some hc) = select (is_healthy hc) ∷ []

mark : Option HealthChecker → Node → Option HealthChecker
mark none n = none
mark (some hc) n = some (mark_unhealthy hc n)

failed_trip : Err → ℕ → Node → Trip → Trip
unfolding mark
failed_trip e i n s = record s {
  last_err = some e;
  done_calls = i ∷ s.done_calls;
  options =
      let o = s.options in record o { upstream_status_code = o.upstream_status_code ++ 0 ∷ [] };
  health_check = mark s.health_check n;
}

answered_trip : Response → ℕ → Trip → Trip
answered_trip r i s = record s {
  options =
      let o = s.options in
      record o {
        upstream_status_code = o.upstream_status_code ++ r.status_code ∷ [];
        done_func = some i;
      };
}

picked_trip : ℕ → Node → Trip → Trip
picked_trip i n s = record s {
  last_done = some i;
  choices = i ∷ s.choices;
  options =
      let o = s.options in
      record o { current_node = some n; backends = o.backends ++ n.address ∷ [] };
}

result_of : Option Err → Result
result_of none = nothing
result_of (some e) = error e

call_done : Option ℕ → List ℕ → List ℕ
call_done none calls = calls
call_done (some i) calls = i ∷ calls

-- Behind the loop: the last DoneFunc is called, whether or not its attempt has called it.
give_up : Trip → Trip × Result
unfolding result_of call_done
give_up s = (
  record s {
    done_calls = call_done s.last_done s.done_calls;
    options =
        let o = s.options in record o { upstream_status_code = o.upstream_status_code ++ 0 ∷ [] };
  },
  result_of s.last_err,
)

after_answer : (Trip → Trip × Result) → Answer → ℕ → Node → Trip → Trip × Result
unfolding failed_trip answered_trip
after_answer next (broken e) i n s = next (failed_trip e i n s)
after_answer next (answered r) i n s = (answered_trip r i s, response r)

after_choice : Env → (Trip → Trip × Result) → Choice → ℕ → Trip → Trip × Result
unfolding after_answer picked_trip
after_choice env next (no_node e) i s = next (record s { last_err = some e })
after_choice env next (chosen n) i s = after_answer next (env.answer i n) i n (picked_trip i n s)

-- The loop with `left` attempts to go, at attempt `i`; the request's own filters come last.
trip_loop : Env → List Filter → ℕ → ℕ → Trip → Trip × Result
unfolding give_up after_choice
trip_loop env filters zero i s = give_up s
trip_loop env filters (suc left) i s =
    after_choice env (trip_loop env filters left (i + 1))
      (env.choose i (health_filters s.health_check ++ filters)) i s

-- RoundTrip, with maxRetries, the health checker and the request's options.
unfoldable pub round_trip :
    Env → List Filter → ℕ → Option HealthChecker → RequestOptions → Trip × Result
unfolding trip_loop health_filters
round_trip env filters max_retries hc options = trip_loop env filters max_retries 0 (record {
  options = options;
  health_check = hc;
  last_err = none;
  last_done = none;
  choices = [];
  done_calls = [];
})

-- defaultMaxRetries
abbrev pub default_max_retries : ℕ
default_max_retries = 1
