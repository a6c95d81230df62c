-- ===== src/Middleware/CircuitBreaker/Laws.antt =====
-- What middleware/circuitbreaker/circuitbreaker.go answers and counts.
use ecommerce_gateway.Common.{
  ℕ, ◌≡◌, ◌∙◌, sym, refl, Bool, true, false, ◌&&◌, ◌||◌, any, is_empty, [], ◌∷◌, List,
  if◌then◌else◌, Bool-cases, inl, inr,
}
use ecommerce_gateway.Http.{Request, Response}
use ecommerce_gateway.Proxy.Condition.{Condition, judge, judge_conditions}
use ecommerce_gateway.Proxy.Loop.{Outcome, failed, answered}
use ecommerce_gateway.Middleware.Registry.{Tripper}
use ecommerce_gateway.Middleware.CircuitBreaker.{
  Sre, Breaker, allow, mark_request, mark_outcome, breaker_trip,
}

-- The outcome counts as a success: it is a response, and one of the conditions holds of it, or there
-- are none.
abbrev pub succeeds : List Condition → Outcome → Bool
succeeds conditions (failed e) = false
succeeds conditions (answered resp) = is_empty conditions || any (λ c. judge c resp) conditions

judge_conditions-any :
    (conditions : List Condition) (resp : Response)
    → judge_conditions conditions resp true
      ≡ (is_empty conditions || any (λ c. judge c resp) conditions)
unfolding judge_conditions
judge_conditions-any [] resp = refl
judge_conditions-any (c ∷ conditions) resp = refl

module _ {ℓ} {S : Type ℓ} (lib : Sre S) where
  mark_outcome-once :
      (conditions : List Condition) (b : Breaker S) (result : Outcome)
      → mark_outcome lib conditions b result
        ≡ (result, mark_request lib (succeeds conditions result) b)
  unfolding mark_outcome
  mark_outcome-once conditions b (failed e) = refl
  mark_outcome-once conditions b (answered resp) =
      let counted = judge_conditions-any conditions resp in
      elim (Bool-cases (judge_conditions conditions resp true)) [
        | inl good ↦ rw (good, sym counted ∙ good) refl
        | inr bad ↦ rw (bad, sym counted ∙ bad) refl
      ]

  -- Every request is counted once, behind the breaker's decision on it: as a success when it was
  -- allowed and the next tripper gave a response of which one of the conditions holds, or any
  -- response where there are no conditions, and else as a failure. A request that is denied is
  -- answered by the backup and does not reach the next tripper; one that is allowed has that
  -- tripper's outcome, whatever it counts as.
  pub breaker_trip_lem :
      (conditions : List Condition) (on_break next : Tripper) (random : ℕ) (b : Breaker S)
      (r : Request)
      → breaker_trip lib conditions on_break next random b r ≡ (
        (if (allow lib random b).0 then next r else on_break r),
        mark_request lib
            ((allow lib random b).0 && succeeds conditions (next r))
            (allow lib random b).1,
      )
  unfolding breaker_trip
  breaker_trip_lem conditions on_break next random b r = elim (Bool-cases (allow lib random b).0) [
    | inl allowed ↦ rw allowed (mark_outcome-once conditions (allow lib random b).1 (next r))
    | inr denied ↦ rw denied refl
  ]
