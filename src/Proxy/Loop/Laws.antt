-- ===== src/Proxy/Loop/Laws.antt =====
-- What the retry loop of proxy/proxy.go promises.
use ecommerce_gateway.Common.{
  ℕ, zero, suc, ◌+◌, ◌≤◌, ◌≡◌, ◌≢◌, refl, arith, true, false, Option, none, some, List, [], ◌∷◌,
  All, length, leb, inl, inr, ◌⊎◌, Option-cases, Bool-cases, ◌&&◌, not,
}
use ecommerce_gateway.Http.{Response}
use ecommerce_gateway.Errors.Codes.{Err}
use ecommerce_gateway.Proxy.Condition.{Condition}
use ecommerce_gateway.Proxy.Retry.{RetryStrategy, judge_retry_required}
use ecommerce_gateway.Proxy.Loop.{
  Outcome, failed, answered, Turn, Stats, Run, stops_retry, trip, turn, attempts_loop, fresh_run,
  Reply, error_reply, response_reply, nil_response, reply_of, run_request, reply,
}

-- A round trip after which the loop may go on.
abbrev pub Retried : List Condition → Outcome → Type 0
Retried conditions (failed e) = stops_retry e ≡ false
Retried conditions (answered r) = judge_retry_required conditions r ≡ true

abbrev pub Earlier : List Condition → List Outcome → Type 0
Earlier conditions [] = Unit
Earlier conditions (o ∷ os) = All (Retried conditions) os

-- How the loop's variables stand to the round trips that were made. `expired` holds of the errors
-- of the context.
abbrev Stands : (Err → Type 0) → List Outcome → Option Response → Option Err → Type 0
Stands expired trips resp (some e) = expired e ⊎ ((os : List Outcome) × (trips ≡ failed e ∷ os))
Stands expired trips (some r) none = (os : List Outcome) × (trips ≡ answered r ∷ os)
Stands expired trips none none = trips ≡ []

module _ (strategy : RetryStrategy) (env : ℕ → Turn) where
  abbrev pub Expired : Err → Type 0
  Expired e = (i : ℕ) × ((env i).expired ≡ some e)

  pub record Inv (s : Run) : Type 0 where
    pub earlier : Earlier strategy.conditions s.trips
    pub stands : Stands Expired s.trips s.resp s.err

  -- Before a turn the round trips so far have all been such that the loop goes on.
  pub record Ready (s : Run) : Type 0 where
    pub all_retried : All (Retried strategy.conditions) s.trips
    pub stands : Stands Expired s.trips s.resp s.err

  Ready-Inv : {s : Run} → Ready s → Inv s
  Ready-Inv {s} v = record { earlier = Earlier-of s.trips v.all_retried; stands = v.stands }
    where
      Earlier-of :
          (trips : List Outcome)
          → All (Retried strategy.conditions) trips
          → Earlier strategy.conditions trips
      Earlier-of [] h = tt
      Earlier-of (o ∷ os) h = h.1

  trip-Inv :
      (next : Run → Run)
      → ((s : Run) → Ready s → Inv (next s))
      → (o : Outcome) (i : ℕ) (s : Run) → Ready s
      → Inv (trip strategy.conditions next o i s)
  unfolding trip
  trip-Inv next keep (failed e) i s v = elim (Bool-cases (stops_retry e)) [
    | inl stop ↦ rw stop (record { earlier = v.all_retried; stands = inr (s.trips, refl) })
    | inr go ↦
        rw go (keep _ (record { all_retried = (go, v.all_retried); stands = inr (s.trips, refl) }))
  ]
  trip-Inv next keep (answered r) i s v =
      elim (Bool-cases (judge_retry_required strategy.conditions r)) [
        | inl retry ↦
            rw retry
              (keep _ (record { all_retried = (retry, v.all_retried); stands = (s.trips, refl) }))
        | inr fine ↦ rw fine (record { earlier = v.all_retried; stands = (s.trips, refl) })
      ]

  turn-Inv :
      (next : Run → Run)
      → ((s : Run) → Ready s → Inv (next s))
      → (i : ℕ) (s : Run) → Ready s
      → Inv (turn strategy next (env i) i s)
  unfolding turn
  turn-Inv next keep i s v = elim (Bool-cases (leb 1 i && not (env i).enabled)) [
    | inl off ↦ rw off (Ready-Inv v)
    | inr on ↦ elim (Bool-cases (leb 1 i && not (env i).allows)) [
      | inl denied ↦
          rw (on, denied) (Ready-Inv (record { all_retried = v.all_retried; stands = v.stands }))
      | inr allowed ↦ elim (Option-cases (env i).expired) [
        | inl live ↦
            rw (on, allowed, live)
              (trip-Inv next keep (env i).outcome i _
                (record { all_retried = v.all_retried; stands = v.stands }))
        | inr (e, over) ↦
            rw (on, allowed, over)
              (Ready-Inv (record { all_retried = v.all_retried; stands = inl (i, over) }))
      ]
    ]
  ]

  loop-Inv : (left i : ℕ) (s : Run) → Ready s → Inv (attempts_loop strategy env left i s)
  unfolding attempts_loop
  loop-Inv zero i s v = Ready-Inv v
  loop-Inv (suc left) i s v =
      turn-Inv (attempts_loop strategy env left (i + 1)) (loop-Inv left (i + 1)) i s v

  -- How many round trips are made.
  trip-count :
      (next : Run → Run) (n : ℕ)
      → ((s : Run) → length (next s).trips ≤ length s.trips + n)
      → (o : Outcome) (i : ℕ) (s : Run)
      → length (trip strategy.conditions next o i s).trips ≤ length s.trips + suc n
  unfolding trip
  trip-count next n keep (failed e) i s = elim (Bool-cases (stops_retry e)) [
    | inl stop ↦ rw stop (omega arith)
    | inr go ↦ rw go (omega (arith, keep _))
  ]
  trip-count next n keep (answered r) i s =
      elim (Bool-cases (judge_retry_required strategy.conditions r)) [
        | inl retry ↦ rw retry (omega (arith, keep _))
        | inr fine ↦ rw fine (omega arith)
      ]

  turn-count :
      (next : Run → Run) (n : ℕ)
      → ((s : Run) → length (next s).trips ≤ length s.trips + n)
      → (i : ℕ) (s : Run) → length (turn strategy next (env i) i s).trips ≤ length s.trips + suc n
  unfolding turn
  turn-count next n keep i s = elim (Bool-cases (leb 1 i && not (env i).enabled)) [
    | inl off ↦ rw off (omega arith)
    | inr on ↦ elim (Bool-cases (leb 1 i && not (env i).allows)) [
      | inl denied ↦ rw (on, denied) (omega arith)
      | inr allowed ↦ elim (Option-cases (env i).expired) [
        | inl live ↦ rw (on, allowed, live) (trip-count next n keep (env i).outcome i _)
        | inr (e, over) ↦ rw (on, allowed, over) (omega arith)
      ]
    ]
  ]

  loop-count :
      (left i : ℕ) (s : Run)
      → length (attempts_loop strategy env left i s).trips ≤ length s.trips + left
  unfolding attempts_loop
  loop-count zero i s = omega arith
  loop-count (suc left) i s =
      turn-count (attempts_loop strategy env left (i + 1)) left (loop-count left (i + 1)) i s

  -- There is an error, or a response.
  abbrev Full : Run → Type 0
  Full s = reply s ≢ nil_response

  trip-Full :
      (next : Run → Run)
      → ((s : Run) → Full s → Full (next s))
      → (o : Outcome) (i : ℕ) (s : Run) → Full (trip strategy.conditions next o i s)
  unfolding trip reply
  trip-Full next keep (failed e) i s = elim (Bool-cases (stops_retry e)) [
    | inl stop ↦ rw stop (λ q. cc)
    | inr go ↦ rw go (keep _ (λ q. cc))
  ]
  trip-Full next keep (answered r) i s =
      elim (Bool-cases (judge_retry_required strategy.conditions r)) [
        | inl retry ↦ rw retry (keep _ (λ q. cc))
        | inr fine ↦ rw fine (λ q. cc)
      ]

  turn-Full :
      (next : Run → Run)
      → ((s : Run) → Full s → Full (next s))
      → (i : ℕ) (s : Run) → (i ≡ 0) ⊎ Full s
      → Full (turn strategy next (env i) i s)
  unfolding turn reply
  turn-Full next keep i s v = elim (Bool-cases (leb 1 i && not (env i).enabled)) [
    | inl off ↦ rw off (ground arith)
    | inr on ↦ elim (Bool-cases (leb 1 i && not (env i).allows)) [
      | inl denied ↦ rw (on, denied) (ground arith)
      | inr allowed ↦ elim (Option-cases (env i).expired) [
        | inl live ↦ rw (on, allowed, live) (trip-Full next keep (env i).outcome i _)
        | inr (e, over) ↦ rw (on, allowed, over) (λ q. cc)
      ]
    ]
  ]

  loop-Full : (left i : ℕ) (s : Run) → Full s → Full (attempts_loop strategy env left i s)
  unfolding attempts_loop
  loop-Full zero i s v = v
  loop-Full (suc left) i s v =
      turn-Full (attempts_loop strategy env left (i + 1)) (loop-Full left (i + 1)) i s (inr v)

-- A request is never answered from a nil response, if the strategy has at least one attempt.
pub reply-ne-nil :
    (strategy : RetryStrategy) (env : ℕ → Turn) (st : Stats)
    → 1 ≤ strategy.attempts
    → reply (run_request strategy env st) ≢ nil_response
unfolding run_request attempts_loop
reply-ne-nil strategy env st h = first strategy.attempts h
  where
    first : (n : ℕ) → 1 ≤ n → reply (attempts_loop strategy env n 0 (fresh_run st)) ≢ nil_response
    first zero h = absurd (omega arith)
    first (suc left) h =
        turn-Full strategy env (attempts_loop strategy env left (0 + 1))
          (loop-Full strategy env left (0 + 1)) 0 (fresh_run st) (inl refl)

-- At most as many round trips are made as the strategy has attempts.
pub trips-le-attempts :
    (strategy : RetryStrategy) (env : ℕ → Turn) (st : Stats)
    → length (run_request strategy env st).trips ≤ strategy.attempts
unfolding run_request
trips-le-attempts strategy env st =
    omega (arith, loop-count strategy env strategy.attempts 0 (fresh_run st))

-- Where the answer to the client comes from.
abbrev pub Source : RetryStrategy → (ℕ → Turn) → List Outcome → Reply → Type 0
Source strategy env trips (response_reply r) = (os : List Outcome) × (trips ≡ answered r ∷ os)
Source strategy env trips (error_reply e) =
    Expired strategy env e ⊎ ((os : List Outcome) × (trips ≡ failed e ∷ os))
Source strategy env trips nil_response = trips ≡ []

-- A response that is sent is the one of the last round trip, and an error is the one of the last
-- round trip or of a context that was done before a turn. Every earlier round trip failed with an
-- error that does not stop the loop, or was answered by a response that the conditions retry.
pub reply-Source :
    (strategy : RetryStrategy) (env : ℕ → Turn) (st : Stats)
    → let s = run_request strategy env st in
      Source strategy env s.trips (reply s) × Earlier strategy.conditions s.trips
unfolding run_request reply
reply-Source strategy env st =
    let s = attempts_loop strategy env strategy.attempts 0 (fresh_run st) in
    let v =
      loop-Inv strategy env strategy.attempts 0 (fresh_run st)
        (record { all_retried = tt; stands = refl }) in
    (from_variables s.trips s.err s.resp v.stands, v.earlier)
  where
    from_variables :
        (trips : List Outcome) (err : Option Err) (resp : Option Response)
        → Stands (Expired strategy env) trips resp err
        → Source strategy env trips (reply_of err resp)
    from_variables trips (some e) resp h = h
    from_variables trips none (some r) h = h
    from_variables trips none none h = h
