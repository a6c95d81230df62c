-- ===== src/Proxy/Loop.antt =====
-- The handler that buildEndpoint of proxy/proxy.go returns: the retry loop of one request and what
-- is answered. What happens around the loop, in each turn, is given by the environment.
pub mod Laws
mod Tests
use ecommerce_gateway.Common.{
  ℕ, zero, suc, ◌+◌, Bool, true, false, not, ◌&&◌, ◌||◌, Option, none, some, List, [], ◌∷◌, ◌++◌,
  Text, bytes, text_eq, leb, ◌==◌, ℤ, pos, negsuc, if◌then◌else◌, Header, Slice, Map, insert,
}
use ecommerce_gateway.Http.{Response}
use ecommerce_gateway.Errors.Codes.{
  KratosError, Err, kratos, context_canceled, context_deadline_exceeded, plain, wrap, new_error,
  err_permission_denied,
}
use ecommerce_gateway.Errors.Response.{is_canceled}
use ecommerce_gateway.Proxy.Condition.{Condition}
use ecommerce_gateway.Proxy.Retry.{RetryStrategy, judge_retry_required}

-- What tripper.RoundTrip returns: an error and no response, or a response.
pub data Outcome : Type 0 where
  failed : Err → Outcome
  answered : Response → Outcome

-- Turn `i` of the loop as its surroundings decide it: whether the retry feature is on, whether the
-- retry breaker allows the attempt, what ctx.Err() says, and what the round trip comes to.
pub record Turn : Type 0 where
  pub enabled : Bool
  pub allows : Bool
  pub expired : Option Err
  pub outcome : Outcome

-- The counters of retries (requests_retry_state) and the calls of the retry breaker.
pub record Stats : Type 0 where
  pub retry_success : ℕ
  pub retry_failed : ℕ
  pub breaker_success : ℕ
  pub breaker_failed : ℕ

pub record Run : Type 0 where
  -- the variables `resp` and `err`
  pub resp : Option Response
  pub err : Option Err
  pub last_attempt : Bool
  pub stats : Stats
  -- the round trips that were made, the latest first
  pub trips : List Outcome

-- jwt.NotAuthN
abbrev pub not_authn : KratosError
not_authn = new_error 401 (bytes "JWT_AUTHN_REQUIRED") (bytes "未授权: 需要身份验证")

int_eq : ℤ → ℤ → Bool
int_eq (pos a) (pos b) = a == b
int_eq (negsuc a) (negsuc b) = a == b
int_eq (pos a) (negsuc b) = false
int_eq (negsuc a) (pos b) = false

-- errors.Is with a kratos error as the target: the codes and the reasons are compared.
unfoldable pub is_kratos : KratosError → Err → Bool
unfolding int_eq text_eq
is_kratos target (kratos e) = int_eq e.code target.code && text_eq e.reason target.reason
is_kratos target (wrap text e) = is_kratos target e
is_kratos target other = false

-- The errors after which the loop does not go on.
unfoldable pub stops_retry : Err → Bool
unfolding is_kratos
stops_retry e = is_kratos not_authn e || is_kratos err_permission_denied e

-- markSuccess and markFailed, with the counting of splitRetryMetricsHandler.
mark_success : ℕ → Stats → Stats
mark_success i st = if i == 0 then st else record st {
  retry_success = st.retry_success + 1;
  breaker_success = st.breaker_success + 1;
}

mark_failed : ℕ → Err → Stats → Stats
mark_failed i e st = if i == 0 then st else record st {
  retry_failed = if is_canceled e then st.retry_failed else st.retry_failed + 1;
  breaker_failed = st.breaker_failed + 1;
}

-- circuitbreaker.ErrNotAllowed, and the error that stands for a response that is to be retried.
abbrev not_allowed : Err
not_allowed = plain (bytes "circuitbreaker: not allowed for circuit open")

abbrev assertion_failed : Err
assertion_failed = kratos (new_error 500 (bytes "ASSERTION_FAILED") (bytes "assertion failed"))

-- From the round trip to the end of the loop's body; `next` is the rest of the loop.
trip : List Condition → (Run → Run) → Outcome → ℕ → Run → Run
trip conditions next (failed e) i s =
    let tried = record s { resp = none; err = some e; trips = failed e ∷ s.trips } in
    if stops_retry e then tried else next (record tried { stats = mark_failed i e s.stats })
trip conditions next (answered r) i s =
    let tried = record s { resp = some r; err = none; trips = answered r ∷ s.trips } in
    if judge_retry_required conditions r
    then next (record tried { stats = mark_failed i assertion_failed s.stats })
    else record tried { last_attempt = true; stats = mark_success i s.stats }

-- The body of the loop. An error of the breaker does not reach the variable `err`.
turn : RetryStrategy → (Run → Run) → Turn → ℕ → Run → Run
unfolding trip
turn strategy next t i s =
    if leb 1 i && not t.enabled
    then s
    else if leb 1 i && not t.allows
    then record s { stats = mark_failed i not_allowed s.stats }
    else let s' = record s { last_attempt = leb strategy.attempts (i + 1) || s.last_attempt } in
      elim t.expired [
        | some e ↦ record s' { err = some e; stats = mark_failed i e s.stats }
        | none ↦ trip strategy.conditions next t.outcome i s'
      ]

-- The loop with `left` turns to go, at turn `i`.
attempts_loop : RetryStrategy → (ℕ → Turn) → ℕ → ℕ → Run → Run
unfolding turn
attempts_loop strategy env zero i s = s
attempts_loop strategy env (suc left) i s =
    turn strategy (attempts_loop strategy env left (i + 1)) (env i) i s

abbrev pub fresh_run : Stats → Run
fresh_run st = record { resp = none; err = none; last_attempt = false; stats = st; trips = [] }

-- What is sent to the client: writeError, the response, or a panic on the nil response.
pub data Reply : Type 0 where
  error_reply : Err → Reply
  response_reply : Response → Reply
  nil_response : Reply

reply_of : Option Err → Option Response → Reply
reply_of (some e) resp = error_reply e
reply_of none (some r) = response_reply r
reply_of none none = nil_response

unfoldable pub run_request : RetryStrategy → (ℕ → Turn) → Stats → Run
unfolding attempts_loop mark_success mark_failed
run_request strategy env st = attempts_loop strategy env strategy.attempts 0 (fresh_run st)

unfoldable pub reply : Run → Reply
unfolding reply_of
reply s = reply_of s.err s.resp
