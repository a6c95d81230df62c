-- ===== src/Proxy/Update/Laws.antt =====
-- What Update of proxy/proxy.go leaves: the routes of the router and the clients that are closed.
use ecommerce_gateway.Common.{
  ℕ, ◌+◌, ◌≡◌, ◌∙◌, ap, sym, refl, arith, Bool, true, false, not, ◌&&◌, ◌||◌, List, [], ◌∷◌, ◌++◌,
  is_empty, if◌then◌else◌, ◌==◌, length, append_assoc, append-nil, length-append, any, any-append,
  Bool-cases, inl, inr,
}
use ecommerce_gateway.Config.Types.{MiddlewareConfig, Endpoint, Gateway}
use ecommerce_gateway.Proxy.Update.{
  Surroundings, Built, no_client, abandoned, built, build_endpoint, Route, Progress, take_built,
  build_all, Proxy, all_of, empty_progress, commit, update,
}

-- The routes that the endpoints from position `i` on give: those that are built and taken.
route_of : Surroundings → ℕ → Endpoint → Built → List Route → List Route
route_of env i e (built h) rest =
    if env.handles e then record { position = i; endpoint = e; handler = h } ∷ rest else rest
route_of env i e other rest = rest

pub routes_of : Surroundings → List MiddlewareConfig → ℕ → List Endpoint → List Route
unfolding route_of
routes_of env ms i [] = []
routes_of env ms i (e ∷ es) =
    route_of env i e (build_endpoint env ms e) (routes_of env ms (i + 1) es)

routes-take_built :
    (env : Surroundings) (i : ℕ) (e : Endpoint) (b : Built) (s : Progress) (rest : List Route)
    → (take_built env i e b s).routes ++ rest ≡ s.routes ++ route_of env i e b rest
unfolding take_built route_of
routes-take_built env i e no_client s rest = refl
routes-take_built env i e abandoned s rest = refl
routes-take_built env i e (built h) s rest = elim (Bool-cases (env.handles e)) [
  | inl taken ↦
      rw taken
        (append_assoc s.routes (record { position = i; endpoint = e; handler = h } ∷ []) rest)
  | inr left ↦ rw left refl
]

routes-build_all :
    (env : Surroundings) (ms : List MiddlewareConfig) (i : ℕ) (es : List Endpoint) (s : Progress)
    → (build_all env ms i es s).routes ≡ s.routes ++ routes_of env ms i es
unfolding build_all routes_of
routes-build_all env ms i [] s = sym (append-nil s.routes)
routes-build_all env ms i (e ∷ es) s =
    routes-build_all env ms (i + 1) es (take_built env i e (build_endpoint env ms e) s)
    ∙ routes-take_built env i e (build_endpoint env ms e) s (routes_of env ms (i + 1) es)

-- Each success has a route.
count-take_built :
    (env : Surroundings) (i : ℕ) (e : Endpoint) (b : Built) (s : Progress)
    → s.success_count ≡ length s.routes
    → (take_built env i e b s).success_count ≡ length (take_built env i e b s).routes
unfolding take_built
count-take_built env i e no_client s h = h
count-take_built env i e abandoned s h = h
count-take_built env i e (built b) s h =
    ground
      (arith, h, length-append s.routes (record { position = i; endpoint = e; handler = b } ∷ []))

count-build_all :
    (env : Surroundings) (ms : List MiddlewareConfig) (i : ℕ) (es : List Endpoint) (s : Progress)
    → s.success_count ≡ length s.routes
    → (build_all env ms i es s).success_count ≡ length (build_all env ms i es s).routes
unfolding build_all
count-build_all env ms i [] s h = h
count-build_all env ms i (e ∷ es) s h =
    count-build_all env ms (i + 1) es (take_built env i e (build_endpoint env ms e) s)
      (count-take_built env i e (build_endpoint env ms e) s h)

-- The positions of the endpoints whose building comes to something.
pub positions_of :
    (Built → Bool) → Surroundings → List MiddlewareConfig → ℕ → List Endpoint → List ℕ
positions_of p env ms i [] = []
positions_of p env ms i (e ∷ es) =
    let rest = positions_of p env ms (i + 1) es in
    if p (build_endpoint env ms e) then i ∷ rest else rest

abbrev pub is_made : Built → Bool
is_made no_client = false
is_made abandoned = true
is_made (built h) = true

abbrev pub is_abandoned : Built → Bool
is_abandoned abandoned = true
is_abandoned other = false

module _ (q : ℕ × ℕ → Bool) (u : ℕ) where
  any_of : List ℕ → Bool
  unfolding any all_of
  any_of is = any q (all_of u is)

  any_of-cons : (i : ℕ) (is : List ℕ) → any_of (i ∷ is) ≡ q (u, i) || any_of is
  unfolding any_of any all_of
  any_of-cons i is = refl

  closed-take_built :
      (env : Surroundings) (i : ℕ) (e : Endpoint) (b : Built) (s : Progress) (rest : List ℕ)
      → any_of (take_built env i e b s).closed || any_of rest
        ≡ any_of s.closed || any_of (if is_abandoned b then i ∷ rest else rest)
  unfolding take_built
  closed-take_built env i e no_client s rest = refl
  closed-take_built env i e abandoned s rest =
      ground (arith, any_of-cons i s.closed, any_of-cons i rest)
  closed-take_built env i e (built h) s rest = ground arith

  closed-build_all :
      (env : Surroundings) (ms : List MiddlewareConfig) (i : ℕ) (es : List Endpoint) (s : Progress)
      → any_of (build_all env ms i es s).closed
        ≡ any_of s.closed || any_of (positions_of is_abandoned env ms i es)
  unfolding build_all positions_of any_of all_of any
  closed-build_all env ms i [] s = ground arith
  closed-build_all env ms i (e ∷ es) s =
      closed-build_all env ms (i + 1) es (take_built env i e (build_endpoint env ms e) s)
      ∙ closed-take_built env i e (build_endpoint env ms e) s
          (positions_of is_abandoned env ms (i + 1) es)

  made-take_built :
      (env : Surroundings) (i : ℕ) (e : Endpoint) (b : Built) (s : Progress) (rest : List ℕ)
      → let t = take_built env i e b s in
        (any_of t.deferred || any_of t.closed) || any_of rest
        ≡ (any_of s.deferred || any_of s.closed) || any_of (if is_made b then i ∷ rest else rest)
  unfolding take_built
  made-take_built env i e no_client s rest = refl
  made-take_built env i e abandoned s rest =
      ground (arith, any_of-cons i s.closed, any_of-cons i rest)
  made-take_built env i e (built h) s rest =
      ground (arith, any_of-cons i s.deferred, any_of-cons i rest)

  made-build_all :
      (env : Surroundings) (ms : List MiddlewareConfig) (i : ℕ) (es : List Endpoint) (s : Progress)
      → let t = build_all env ms i es s in
        any_of t.deferred || any_of t.closed
        ≡ (any_of s.deferred || any_of s.closed) || any_of (positions_of is_made env ms i es)
  unfolding build_all positions_of any_of all_of any
  made-build_all env ms i [] s = ground arith
  made-build_all env ms i (e ∷ es) s =
      made-build_all env ms (i + 1) es (take_built env i e (build_endpoint env ms e) s)
      ∙ made-take_built env i e (build_endpoint env ms e) s (positions_of is_made env ms (i + 1) es)

  any_of-append : (is js : List ℕ) → any_of (is ++ js) ≡ any_of is || any_of js
  unfolding any_of any all_of
  any_of-append [] js = refl
  any_of-append (i ∷ is) js = ground (arith, any_of-append is js)

-- The clients that are closed behind an update: those that were before it, and of this update
-- those at the given positions.
abbrev pub ClosedAt : Proxy → Proxy → List ℕ → Type 0
ClosedAt p r positions =
    (q : ℕ × ℕ → Bool) → any q r.closed ≡ any q (all_of p.update_count positions) || any q p.closed

-- A gateway none of whose endpoints, though it has some, gives a route.
abbrev pub no_route : Surroundings → Gateway → Bool
no_route env c = is_empty (routes_of env c.middlewares 0 c.endpoints) && not (is_empty c.endpoints)

no_success :
    (env : Surroundings) (c : Gateway)
    → ((build_all env c.middlewares 0 c.endpoints empty_progress).success_count == 0)
        && not (is_empty c.endpoints)
      ≡ no_route env c
unfolding empty_progress
no_success env c =
    let t = build_all env c.middlewares 0 c.endpoints empty_progress in
    ap (λ b. b && not (is_empty c.endpoints))
      (ap (λ n. n == 0) (count-build_all env c.middlewares 0 c.endpoints empty_progress refl)
        ∙ length_zero t.routes
        ∙ ap is_empty (routes-build_all env c.middlewares 0 c.endpoints empty_progress))
  where
    length_zero : (rs : List Route) → (length rs == 0) ≡ is_empty rs
    length_zero [] = refl
    length_zero (r ∷ rs) = ground arith

-- An update whose endpoints give a route, or that has no endpoints, succeeds: the router has
-- exactly the routes of the endpoints that are built and taken, in their order, the old one is
-- retired, and only the clients are closed whose endpoint was not built. An update that has
-- endpoints, none of which gives a route, fails: the router stays, and exactly the clients that
-- were made for it are closed.
pub update_lem :
    (env : Surroundings) (c : Gateway) (p : Proxy)
    → let r = update env c p in
      (no_route env c ≡ false
        → (r.1 ≡ true)
          × (r.0.router ≡ routes_of env c.middlewares 0 c.endpoints)
          × (r.0.retired ≡ p.router ∷ p.retired)
          × ClosedAt p r.0 (positions_of is_abandoned env c.middlewares 0 c.endpoints))
      × (no_route env c ≡ true
          → (r.1 ≡ false)
            × (r.0.router ≡ p.router)
            × (r.0.retired ≡ p.retired)
            × ClosedAt p r.0 (positions_of is_made env c.middlewares 0 c.endpoints))
unfolding update commit empty_progress any_of
update_lem env c p =
    let t = build_all env c.middlewares 0 c.endpoints empty_progress in
    let u = p.update_count in
    (
      λ some_route. rw (no_success env c ∙ some_route) (
        refl,
        routes-build_all env c.middlewares 0 c.endpoints empty_progress,
        refl,
        λ q.
            any-append q (all_of u t.closed) p.closed
            ∙ ap (λ b. b || any q p.closed)
                (closed-build_all q u env c.middlewares 0 c.endpoints empty_progress),
      ),
      λ none_left. rw (no_success env c ∙ none_left) (
        refl,
        refl,
        refl,
        λ q.
            any-append q (all_of u (t.deferred ++ t.closed)) p.closed
            ∙ ap (λ b. b || any q p.closed)
                (any_of-append q u t.deferred t.closed
                  ∙ made-build_all q u env c.middlewares 0 c.endpoints empty_progress),
      ),
    )
