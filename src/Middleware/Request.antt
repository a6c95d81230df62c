-- ===== src/Middleware/Request.antt =====
-- middleware/request.go: what a request carries with it, and the filter that keeps its retries away
-- from nodes that were tried.
mod Tests
use ecommerce_gateway.Common.{
  ℕ, ◌≡◌, ◌≢◌, refl, arith, Bool, true, false, not, ◌&&◌, Option, none, some, List, [], ◌∷◌, Text,
  text_eq, text_eq_iff, select, any, all, is_empty, if◌then◌else◌, Bool-cases, inl, inr, All,
  All-All, All-map, ◌⊎◌,
}
use ecommerce_gateway.Client.Node.{Node}

-- RequestOptions. A DoneFunc is named by the choice of a node that it belongs to.
pub record RequestOptions : Type 0 where
  pub backends : List Text
  pub upstream_status_code : List ℕ
  pub current_node : Option Node
  pub done_func : Option ℕ
  pub last_attempt : Bool

unfoldable pub new_request_options : RequestOptions
new_request_options = record {
  backends = [];
  upstream_status_code = [];
  current_node = none;
  done_func = none;
  last_attempt = false;
}

was_tried : List Text → Node → Bool
unfolding any
was_tried backends n = any (λ b. text_eq b n.address) backends

or_all : List Node → List Node → List Node
or_all [] nodes = nodes
or_all (n ∷ fresh) nodes = n ∷ fresh

-- The filter of NewRequestOptions, for the backends that were tried.
unfoldable pub retry_filter : List Text → List Node → List Node
unfolding was_tried or_all select
retry_filter backends nodes =
    if is_empty backends
    then nodes
    else or_all (select (λ n. not (was_tried backends n)) nodes) nodes

select-All : (p : Node → Bool) (nodes : List Node) → All (λ n. p n ≡ true) (select p nodes)
unfolding select
select-All p [] = tt
select-All p (n ∷ nodes) = ground (arith, select-All p nodes)

select-empty :
    (p : Node → Bool) (nodes : List Node) → select p nodes ≡ [] → All (λ n. p n ≡ false) nodes
unfolding select
select-empty p [] h = tt
select-empty p (n ∷ nodes) h = ground (arith, select-empty p nodes)

-- The address stands in none of the backends.
abbrev pub Untried : List Text → Node → Type 0
Untried backends n = All (λ b. b ≢ n.address) backends

Untried-of :
    (backends : List Text) (n : Node) → not (was_tried backends n) ≡ true → Untried backends n
unfolding was_tried any
Untried-of [] n h = tt
Untried-of (b ∷ backends) n h =
    (λ e. ground (arith, e, text_eq_iff b n.address), Untried-of backends n (ground arith))

tried-of :
    (backends : List Text) (n : Node) → not (was_tried backends n) ≡ false → ¬ Untried backends n
unfolding was_tried any
tried-of [] n h u = cc
tried-of (b ∷ backends) n h u = elim (Bool-cases (text_eq b n.address)) [
  | inl same ↦ u.0 ((text_eq_iff b n.address).0 same)
  | inr other ↦ tried-of backends n (ground arith) u.1
]

-- A filtered list is not empty unless the list was, and holds only nodes that were not tried,
-- unless all were tried: then it is the whole list.
abbrev pub Filtered : List Text → List Node → List Node → Type 0
Filtered backends nodes result =
    (nodes ≢ [] → result ≢ [])
    × (All (Untried backends) result ⊎ ((result ≡ nodes) × All (λ n. ¬ Untried backends n) nodes))

or_all-Filtered :
    (backends : List Text) (fresh nodes : List Node)
    → All (λ n. not (was_tried backends n) ≡ true) fresh
    → (fresh ≡ [] → All (λ n. not (was_tried backends n) ≡ false) nodes)
    → Filtered backends nodes (or_all fresh nodes)
unfolding or_all
or_all-Filtered backends [] nodes good left = (
  λ h. h,
  inr (
    refl,
    All-map (λ n. not (was_tried backends n) ≡ false) (λ n. ¬ Untried backends n)
        (tried-of backends) nodes (left refl),
  ),
)
or_all-Filtered backends (n ∷ fresh) nodes good left = (
  λ h e. cc,
  inl (
      All-map (λ n. not (was_tried backends n) ≡ true) (Untried backends) (Untried-of backends)
        (n ∷ fresh) good),
)

-- The filter for retries leaves a node to choose whenever there was one. It offers only nodes
-- whose address stands in none of the backends that were tried, unless all of them were tried:
-- then it offers them all.
pub retry_filter-Filtered :
    (backends : List Text) (nodes : List Node)
    → Filtered backends nodes (retry_filter backends nodes)
unfolding retry_filter
retry_filter-Filtered [] nodes = (λ h. h, inl (All-All (Untried []) nodes (λ n. tt)))
retry_filter-Filtered (b ∷ backends) nodes =
    let p = λ (n : Node). not (was_tried (b ∷ backends) n) in
    or_all-Filtered (b ∷ backends) (select p nodes) nodes (select-All p nodes)
      (select-empty p nodes)
