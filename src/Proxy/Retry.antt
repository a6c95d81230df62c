-- ===== src/Proxy/Retry.antt =====
-- proxy/retry.go: how often and how long an endpoint's requests are tried.
use ecommerce_gateway.Common.{
  ℕ, ◌≤◌, ℤ, pos, is_positive, ◌==◌, ◌≡◌, arith, Bool, true, false, Option, none, some, List, [],
  Text, if◌then◌else◌,
}
use ecommerce_gateway.Http.{Response}
use ecommerce_gateway.Config.Types.{Endpoint, RetryConfig}
use ecommerce_gateway.Proxy.Condition.{Condition, parse_condition, judge_conditions, ◌>>=◌}

pub record RetryStrategy : Type 0 where
  pub attempts : ℕ
  pub timeout : ℤ
  pub per_try_timeout : ℤ
  pub conditions : List Condition

-- time.Second, in nanoseconds
abbrev pub second : ℤ
second = pos 1000000000

positive_or_second : ℤ → ℤ
positive_or_second d = if is_positive d then d else second

or_zero : Option ℤ → ℤ
or_zero none = pos 0
or_zero (some d) = d

pub calc_timeout : Endpoint → ℤ
unfolding positive_or_second or_zero
calc_timeout e = positive_or_second (or_zero e.timeout)

attempts_of : Option RetryConfig → ℕ
attempts_of none = 1
attempts_of (some r) = if r.attempts == 0 then 1 else r.attempts

pub calc_attempts : Endpoint → ℕ
unfolding attempts_of
calc_attempts e = attempts_of e.retry

per_try : Option RetryConfig → Option ℤ → ℤ
unfolding or_zero
per_try none timeout = or_zero timeout
per_try (some r) timeout = elim r.per_try_timeout [ none ↦ or_zero timeout | some d ↦ d ]

pub calc_per_try_timeout : Endpoint → ℤ
unfolding per_try positive_or_second
calc_per_try_timeout e = positive_or_second (per_try e.retry e.timeout)

conditions_of : (Text → Option (List Text)) → Option RetryConfig → Option (List Condition)
conditions_of lib none = some []
conditions_of lib (some r) = parse_condition lib r.conditions

-- prepareRetryStrategy; `none` is the error of a condition.
unfoldable pub prepare_retry_strategy :
    (Text → Option (List Text)) → Endpoint → Option RetryStrategy
unfolding calc_attempts calc_timeout calc_per_try_timeout conditions_of
prepare_retry_strategy lib e = do
  conditions ← conditions_of lib e.retry
  some (record {
    attempts = calc_attempts e;
    timeout = calc_timeout e;
    per_try_timeout = calc_per_try_timeout e;
    conditions = conditions;
  })

unfoldable pub judge_retry_required : List Condition → Response → Bool
judge_retry_required conditions resp = judge_conditions conditions resp false

-- Every strategy that is prepared tries at least once, and both its timeouts are positive.
pub strategy_bounds :
    (lib : Text → Option (List Text)) (e : Endpoint) (s : RetryStrategy)
    → prepare_retry_strategy lib e ≡ some s
    → (1 ≤ s.attempts) × (is_positive s.timeout ≡ true) × (is_positive s.per_try_timeout ≡ true)
unfolding prepare_retry_strategy
strategy_bounds lib e s h = ground arith
