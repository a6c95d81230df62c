-- ===== src/Middleware/CircuitBreaker.antt =====
-- middleware/circuitbreaker/circuitbreaker.go: requests that a breaker denies are answered by a
-- backup, and every request is counted. The sre breaker of package aegis is a parameter, with what
-- it keeps as a type.
mod Laws
mod Tests
use ecommerce_gateway.Common.{
  ℕ, ℤ, pos, negsuc, Bool, true, false, not, Option, none, some, ◌⊎◌, inl, inr, List, [], ◌∷◌, Text,
  bytes, Slice, Header, insert, ltb, if◌then◌else◌,
}
use ecommerce_gateway.Http.{Request, Response}
use ecommerce_gateway.Errors.Codes.{Err, plain}
use ecommerce_gateway.Config.Types.{Endpoint, RawCondition}
use ecommerce_gateway.Proxy.Condition.{Condition, judge_conditions, parse_condition}
use ecommerce_gateway.Proxy.Loop.{Outcome, failed, answered}
use ecommerce_gateway.Middleware.Registry.{Tripper}

-- sre.Breaker
pub record Sre {ℓ} (S : Type ℓ) : Type ℓ where
  pub allow : S → Bool × S
  pub mark_success : S → S
  pub mark_failed : S → S

-- The trigger of the options: the ratio of successes, for which an sre breaker is made, or a ratio
-- of all requests.
pub data Trigger : Type 0 where
  success_ratio : Trigger
  ratio : ℤ → Trigger
  unknown_trigger : Trigger

-- The breakers that makeBreakerTrigger makes, each with its state.
pub data Breaker {ℓ} (S : Type ℓ) : Type ℓ where
  sre : S → Breaker S
  ratio_trigger : ℤ → Breaker S
  nop_trigger : Breaker S

module _ {ℓ} {S : Type ℓ} (lib : Sre S) where
  -- makeBreakerTrigger, with the sre breaker that the options give.
  unfoldable pub make_breaker_trigger : S → Trigger → Breaker S
  make_breaker_trigger fresh Trigger.success_ratio = Breaker.sre fresh
  make_breaker_trigger fresh (Trigger.ratio r) = Breaker.ratio_trigger r
  make_breaker_trigger fresh Trigger.unknown_trigger = Breaker.nop_trigger

  abbrev pub below : ℕ → ℤ → Bool
  below n (pos r) = ltb n r
  below n (negsuc r) = false

  -- Allow, with the number below ten thousand that rand.Int63n gives.
  unfoldable pub allow : (random : ℕ) → Breaker S → Bool × Breaker S
  allow random (Breaker.sre s) = ((lib.allow s).0, Breaker.sre (lib.allow s).1)
  allow random (Breaker.ratio_trigger r) = (below random r, Breaker.ratio_trigger r)
  allow random Breaker.nop_trigger = (true, Breaker.nop_trigger)

  -- MarkSuccess and MarkFailed
  unfoldable pub mark_request : (success : Bool) → Breaker S → Breaker S
  mark_request true (Breaker.sre s) = Breaker.sre (lib.mark_success s)
  mark_request false (Breaker.sre s) = Breaker.sre (lib.mark_failed s)
  mark_request success (Breaker.ratio_trigger r) = Breaker.ratio_trigger r
  mark_request success Breaker.nop_trigger = Breaker.nop_trigger

  -- What follows an answer of the next tripper.
  unfoldable pub mark_outcome : List Condition → Breaker S → Outcome → Outcome × Breaker S
  unfolding mark_request judge_conditions
  mark_outcome conditions b (failed e) = (failed e, mark_request false b)
  mark_outcome conditions b (answered resp) =
      if not (judge_conditions conditions resp true)
      then (answered resp, mark_request false b)
      else (answered resp, mark_request true b)

  -- The tripper that New wraps around `next`.
  unfoldable pub breaker_trip :
      List Condition
      → (on_break next : Tripper) → (random : ℕ) → Breaker S
      → Request
      → Outcome × Breaker S
  unfolding allow mark_request mark_outcome
  breaker_trip conditions on_break next random b r =
      let (allowed, after) = allow random b in
      if not allowed
      then (on_break r, mark_request false after)
      else mark_outcome conditions after (next r)

-- The action of the options.
pub record ResponseData : Type 0 where
  pub status_code : ℕ
  pub header : List (Text × List Text)
  pub body : Text

pub data Action : Type 0 where
  backup_service : Endpoint → Action
  response_data : ResponseData → Action
  unknown_action : Action

-- The headers as they are written into the map, under the keys as they stand.
unfoldable pub write_headers : List (Text × List Text) → Header → Header
unfolding insert
write_headers [] h = h
write_headers ((key, value) ∷ rest) h = write_headers rest (insert key (some value) h)

unfoldable pub static_response : ResponseData → Response
unfolding write_headers
static_response d = record {
  status_code = d.status_code;
  header = write_headers d.header [];
  trailer = [];
  body = d.body;
}

unfoldable pub unavailable : Response
unavailable = record { status_code = 503; header = []; trailer = []; body = [] }

-- makeOnBreakHandler, for a client factory.
unfoldable pub make_on_break_handler : (Endpoint → Err ⊎ Tripper) → Action → Err ⊎ Tripper
unfolding static_response unavailable
make_on_break_handler factory (Action.backup_service e) = factory e
make_on_break_handler factory (Action.response_data d) = inr (λ r. answered (static_response d))
make_on_break_handler factory Action.unknown_action = inr (λ r. answered unavailable)
