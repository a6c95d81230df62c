-- ===== src/Client/RoundTrip/Laws.antt =====
-- How often a DoneFunc is called, and what RoundTrip of client/client.go returns.
use ecommerce_gateway.Common.{
  ℕ, zero, suc, ◌+◌, ◌≤◌, ◌≡◌, ◌≢◌, sym, ap, refl, arith, Option, none, some, List, [], ◌∷◌,
}
use ecommerce_gateway.Errors.Codes.{Err}
use ecommerce_gateway.Client.Node.{Node}
use ecommerce_gateway.Client.Health.{HealthChecker}
use ecommerce_gateway.Middleware.Request.{RequestOptions}
use ecommerce_gateway.Client.RoundTrip.{
  Filter, Choice, no_node, chosen, Answer, broken, answered, Env, Trip, Result, response, error,
  nothing, give_up, after_answer, after_choice, trip_loop, round_trip, picked_trip, call_done,
  result_of,
}

abbrev head? : List ℕ → Option ℕ
head? [] = none
head? (i ∷ is) = some i

-- Before an attempt every choice so far has failed, and has had its DoneFunc called once.
record Ready (s : Trip) : Type 0 where
  each_once : s.done_calls ≡ s.choices
  last : s.last_done ≡ head? s.choices

-- The last choice twice.
abbrev pub doubled : List ℕ → List ℕ
doubled [] = []
doubled (i ∷ is) = i ∷ i ∷ is

-- The calls of DoneFuncs against the choices that were made.
abbrev pub Called : Trip → Result → Type 0
Called s (response r) = (i : ℕ) × (s.options.done_func ≡ some i) × (s.choices ≡ i ∷ s.done_calls)
Called s (error e) = s.done_calls ≡ doubled s.choices
Called s nothing = s.done_calls ≡ doubled s.choices

call_last : (is : List ℕ) → call_done (head? is) is ≡ doubled is
unfolding call_done
call_last [] = refl
call_last (i ∷ is) = refl

result_of-Called :
    (err : Option Err) (s : Trip) → s.done_calls ≡ doubled s.choices → Called s (result_of err)
unfolding result_of
result_of-Called none s h = h
result_of-Called (some e) s h = h

give_up-Called : (s : Trip) → Ready s → Called (give_up s).0 (give_up s).1
unfolding give_up
give_up-Called s v =
    result_of-Called s.last_err (give_up s).0 (rw (v.last, v.each_once, call_last s.choices) refl)

abbrev Keeps : (Trip → Trip × Result) → Type 0
Keeps next = (s : Trip) → Ready s → Called (next s).0 (next s).1

after_answer-Called :
    (next : Trip → Trip × Result) (a : Answer) (i : ℕ) (n : Node) (s : Trip)
    → Keeps next
    → Ready s
    → Called
        (after_answer next a i n (picked_trip i n s)).0
        (after_answer next a i n (picked_trip i n s)).1
unfolding after_answer picked_trip
after_answer-Called next (broken e) i n s keep v =
    keep _ (record { each_once = ap (λ is. i ∷ is) v.each_once; last = refl })
after_answer-Called next (answered r) i n s keep v = (i, refl, ap (λ is. i ∷ is) (sym v.each_once))

after_choice-Called :
    (env : Env) (next : Trip → Trip × Result) (c : Choice) (i : ℕ) (s : Trip)
    → Keeps next
    → Ready s
    → Called (after_choice env next c i s).0 (after_choice env next c i s).1
unfolding after_choice
after_choice-Called env next (no_node e) i s keep v =
    keep _ (record { each_once = v.each_once; last = v.last })
after_choice-Called env next (chosen n) i s keep v =
    after_answer-Called next (env.answer i n) i n s keep v

trip_loop-Called :
    (env : Env) (filters : List Filter) (left i : ℕ) (s : Trip)
    → Ready s
    → Called (trip_loop env filters left i s).0 (trip_loop env filters left i s).1
unfolding trip_loop
trip_loop-Called env filters zero i s v = give_up-Called s v
trip_loop-Called env filters (suc left) i s v =
    after_choice-Called env (trip_loop env filters left (i + 1)) _ i s
      (trip_loop-Called env filters left (i + 1)) v

-- Behind a response every earlier choice has had its DoneFunc called once, and that of the last
-- choice is left for the caller to call. Behind a failure every earlier choice has had one call
-- too, but the last one has had two.
pub round_trip-Called :
    (env : Env) (filters : List Filter) (max_retries : ℕ) (hc : Option HealthChecker)
    (options : RequestOptions)
    → Called
        (round_trip env filters max_retries hc options).0
        (round_trip env filters max_retries hc options).1
unfolding round_trip
round_trip-Called env filters max_retries hc options =
    trip_loop-Called env filters max_retries 0 _ (record { each_once = refl {a = []}; last = refl })

abbrev Answers : (Trip → Trip × Result) → Type 0
Answers next = (s : Trip) → s.last_err ≢ none → (next s).1 ≢ nothing

give_up-Answers : Answers give_up
unfolding give_up result_of
give_up-Answers s h = ground arith

after_answer-ne-nothing :
    (next : Trip → Trip × Result) (a : Answer) (i : ℕ) (n : Node) (s : Trip)
    → Answers next
    → (after_answer next a i n s).1 ≢ nothing
unfolding after_answer
after_answer-ne-nothing next (broken e) i n s keep = keep _ (λ q. cc)
after_answer-ne-nothing next (answered r) i n s keep = λ q. cc

after_choice-ne-nothing :
    (env : Env) (next : Trip → Trip × Result) (c : Choice) (i : ℕ) (s : Trip)
    → Answers next
    → (after_choice env next c i s).1 ≢ nothing
unfolding after_choice
after_choice-ne-nothing env next (no_node e) i s keep = keep _ (λ q. cc)
after_choice-ne-nothing env next (chosen n) i s keep =
    after_answer-ne-nothing next (env.answer i n) i n (picked_trip i n s) keep

trip_loop-Answers :
    (env : Env) (filters : List Filter) (left i : ℕ) → Answers (trip_loop env filters left i)
unfolding trip_loop
trip_loop-Answers env filters zero i s h = give_up-Answers s h
trip_loop-Answers env filters (suc left) i s h =
    after_choice-ne-nothing env (trip_loop env filters left (i + 1)) _ i s
      (trip_loop-Answers env filters left (i + 1))

-- With at least one attempt, RoundTrip returns a response or an error, whatever the selector and
-- the servers do.
pub round_trip-ne-nothing :
    (env : Env) (filters : List Filter) (max_retries : ℕ) (hc : Option HealthChecker)
    (options : RequestOptions)
    → 1 ≤ max_retries
    → (round_trip env filters max_retries hc options).1 ≢ nothing
unfolding round_trip trip_loop
round_trip-ne-nothing env filters zero hc options h = absurd (omega arith)
round_trip-ne-nothing env filters (suc left) hc options h =
    after_choice-ne-nothing env (trip_loop env filters left (0 + 1)) _ 0 _
      (trip_loop-Answers env filters left (0 + 1))
