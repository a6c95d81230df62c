-- ===== src/Client/Watch/Delay.antt =====
-- calculateRetryDelay of client/servicewatch.go, with the steps of constants/discovery.go. A
-- duration is a number of nanoseconds.
use ecommerce_gateway.Common.{
  ℕ, zero, suc, ◌≤◌, ◌≡◌, refl, arith, Option, none, some, List, [], ◌∷◌, get_elem?, ltb,
  if◌then◌else◌,
}

-- DiscoveryRetrySteps and DiscoveryMaxRetryDelay
abbrev discovery_retry_steps : List ℕ
discovery_retry_steps = 1000000000 ∷ 10000000000 ∷ 30000000000 ∷ 60000000000 ∷ []

abbrev pub discovery_max_retry_delay : ℕ
discovery_max_retry_delay = 60000000000

cap : ℕ → ℕ → ℕ
cap max_delay delay = if ltb max_delay delay then max_delay else delay

capped : ℕ → Option ℕ → ℕ
unfolding cap
capped max_delay none = max_delay
capped max_delay (some delay) = cap max_delay delay

-- The index is one less than the count; `none` is the panic of a negative index.
pub calculate_retry_delay : ℕ → ℕ → Option ℕ
unfolding capped
calculate_retry_delay zero max_delay = none
calculate_retry_delay (suc index) max_delay =
    some (capped max_delay (get_elem? discovery_retry_steps index))

cap_bounds :
    (max_delay a b : ℕ)
    → 1000000000 ≤ max_delay
    → 1000000000 ≤ a
    → a ≤ b
    → (1000000000 ≤ cap max_delay a)
      × (cap max_delay a ≤ cap max_delay b)
      × (cap max_delay b ≤ max_delay)
unfolding cap
cap_bounds max_delay a b h ha hb = (ground (arith, h, ha), ground (arith, hb), ground arith)

-- After one failure or more, the delay is at least a second and at most the maximum, if that is a
-- second or more, and another failure does not make it shorter.
pub calculate_retry_delay_lem :
    (n max_delay : ℕ)
    → 1000000000 ≤ max_delay
    → (d : ℕ) × (d' : ℕ) × (calculate_retry_delay (suc n) max_delay ≡ some d)
      × (calculate_retry_delay (suc (suc n)) max_delay ≡ some d')
      × (1000000000 ≤ d)
      × (d ≤ d')
      × (d' ≤ max_delay)
unfolding calculate_retry_delay capped
calculate_retry_delay_lem zero max_delay h =
    let b = cap_bounds max_delay 1000000000 10000000000 h (omega arith) (omega arith) in
    (cap max_delay 1000000000, cap max_delay 10000000000, refl, refl, b.0, b.1, b.2)
calculate_retry_delay_lem (suc zero) max_delay h =
    let b = cap_bounds max_delay 10000000000 30000000000 h (omega arith) (omega arith) in
    (cap max_delay 10000000000, cap max_delay 30000000000, refl, refl, b.0, b.1, b.2)
calculate_retry_delay_lem (suc (suc zero)) max_delay h =
    let b = cap_bounds max_delay 30000000000 60000000000 h (omega arith) (omega arith) in
    (cap max_delay 30000000000, cap max_delay 60000000000, refl, refl, b.0, b.1, b.2)
calculate_retry_delay_lem (suc (suc (suc zero))) max_delay h =
    let b = cap_bounds max_delay 60000000000 60000000000 h (omega arith) (omega arith) in
    (cap max_delay 60000000000, max_delay, refl, refl, b.0, b.2, omega arith)
calculate_retry_delay_lem (suc (suc (suc (suc n)))) max_delay h =
    (max_delay, max_delay, refl, refl, h, omega arith, omega arith)
