-- ===== src/Client/Health/Update.antt =====
-- updateNodes of client/health_checker.go, field by field and address by address.
use ecommerce_gateway.Common.{
  ◌∙◌, Bool, true, false, not, ◌&&◌, ◌≡◌, refl, arith, Option, none, some, List, [], ◌∷◌, Text, Map,
  text_eq, text_eq_iff, lookup, insert, contains, keys, any, Unique, insert-Unique, lookup-insert,
  lookup-delete, any-keys, if◌then◌else◌,
}
use ecommerce_gateway.Client.Node.{Node}
use ecommerce_gateway.Client.Health.{
  HealthChecker, drop_node, latest_of, prune, adopt_node, adopt, update_nodes,
}

latest_of-Unique : (ns : List Node) (m : Map Node) → Unique m → Unique (latest_of ns m)
unfolding latest_of
latest_of-Unique [] m u = u
latest_of-Unique (n ∷ ns) m u =
    latest_of-Unique ns (insert n.address n m) (insert-Unique n.address n m u)

-- Whether the loop over `addrs` drops the address `a`.
abbrev dropped : Map Node → List Text → Text → Bool
dropped latest addrs a = any (λ k. text_eq k a) addrs && not (contains a latest)

module _ (latest : Map Node) (a : Text) where
  prune-nodes :
      (addrs : List Text) (hc : HealthChecker)
      → lookup a (prune latest addrs hc).nodes
        ≡ (if dropped latest addrs a then none else lookup a hc.nodes)
  unfolding prune drop_node any
  prune-nodes [] hc = refl
  prune-nodes (k ∷ addrs) hc = ground (
    arith,
    text_eq_iff k a,
    lookup-delete k a hc.nodes,
    prune-nodes addrs hc,
    prune-nodes addrs (drop_node k hc),
  )

  prune-healthy :
      (addrs : List Text) (hc : HealthChecker)
      → lookup a (prune latest addrs hc).healthy_nodes
        ≡ (if dropped latest addrs a then none else lookup a hc.healthy_nodes)
  unfolding prune drop_node any
  prune-healthy [] hc = refl
  prune-healthy (k ∷ addrs) hc = ground (
    arith,
    text_eq_iff k a,
    lookup-delete k a hc.healthy_nodes,
    prune-healthy addrs hc,
    prune-healthy addrs (drop_node k hc),
  )

  prune-failures :
      (addrs : List Text) (hc : HealthChecker)
      → lookup a (prune latest addrs hc).failure_count
        ≡ (if dropped latest addrs a then none else lookup a hc.failure_count)
  unfolding prune drop_node any
  prune-failures [] hc = refl
  prune-failures (k ∷ addrs) hc = ground (
    arith,
    text_eq_iff k a,
    lookup-delete k a hc.failure_count,
    prune-failures addrs hc,
    prune-failures addrs (drop_node k hc),
  )

-- What a loop over the new map leaves at an address.
abbrev overlay {ℓ κ} : {A : Type ℓ} {B : Type κ} → Option A → B → (A → B) → B
overlay none old new = old
overlay (some a) old new = new a

module _ (a : Text) where
  adopt-nodes :
      (rest : Map Node) (hc : HealthChecker)
      → Unique rest
      → lookup a (adopt rest hc).nodes ≡ overlay (lookup a rest) (lookup a hc.nodes) some
  unfolding adopt adopt_node lookup
  adopt-nodes [] hc u = refl
  adopt-nodes ((k, n) ∷ rest) hc u = ground (
    arith,
    text_eq_iff k a,
    lookup-insert k a n hc.nodes,
    adopt-nodes rest (adopt_node k n hc) u.1,
  )

  adopt-failures :
      (rest : Map Node) (hc : HealthChecker)
      → Unique rest
      → lookup a (adopt rest hc).failure_count
        ≡ overlay
            (lookup a rest)
            (lookup a hc.failure_count)
            (λ _. if contains a hc.nodes then lookup a hc.failure_count else some 0)
  unfolding adopt adopt_node lookup
  adopt-failures [] hc u = refl
  adopt-failures ((k, n) ∷ rest) hc u = ground (
    arith,
    text_eq_iff k a,
    lookup-insert k a n hc.nodes,
    lookup-insert k a 0 hc.failure_count,
    adopt-failures rest (adopt_node k n hc) u.1,
  )

  adopt-healthy :
      (rest : Map Node) (hc : HealthChecker)
      → Unique rest
      → lookup a (adopt rest hc).healthy_nodes
        ≡ overlay
            (lookup a rest)
            (lookup a hc.healthy_nodes)
            (λ _. if contains a hc.nodes then lookup a hc.healthy_nodes else some true)
  unfolding adopt adopt_node lookup
  adopt-healthy [] hc u = refl
  adopt-healthy ((k, n) ∷ rest) hc u = ground (
    arith,
    text_eq_iff k a,
    lookup-insert k a n hc.nodes,
    lookup-insert k a true hc.healthy_nodes,
    adopt-healthy rest (adopt_node k n hc) u.1,
  )

prune-max_failures :
    (latest : Map Node) (addrs : List Text) (hc : HealthChecker)
    → (prune latest addrs hc).max_failures ≡ hc.max_failures
unfolding prune drop_node
prune-max_failures latest [] hc = refl
prune-max_failures latest (k ∷ addrs) hc =
    ground
      (arith, prune-max_failures latest addrs hc, prune-max_failures latest addrs (drop_node k hc))

adopt-max_failures :
    (rest : Map Node) (hc : HealthChecker) → (adopt rest hc).max_failures ≡ hc.max_failures
unfolding adopt adopt_node
adopt-max_failures [] hc = refl
adopt-max_failures ((k, n) ∷ rest) hc = ground (arith, adopt-max_failures rest (adopt_node k n hc))

pub update_nodes-max_failures :
    (hc : HealthChecker) (ns : List Node) → (update_nodes hc ns).max_failures ≡ hc.max_failures
unfolding update_nodes
update_nodes-max_failures hc ns =
    adopt-max_failures (latest_of ns []) (prune (latest_of ns []) (keys hc.nodes) hc)
    ∙ prune-max_failures (latest_of ns []) (keys hc.nodes) hc

-- The instance that the registry sent last for an address.
abbrev pub last_at : Text → List Node → Option Node
last_at a [] = none
last_at a (n ∷ ns) = elim (last_at a ns) [
  | none ↦ if text_eq n.address a then some n else none
  | some m ↦ some m
]

lookup-latest_of :
    (a : Text) (ns : List Node) (m : Map Node)
    → lookup a (latest_of ns m) ≡ overlay (last_at a ns) (lookup a m) some
unfolding latest_of
lookup-latest_of a [] m = refl
lookup-latest_of a (n ∷ ns) m = ground (
  arith,
  text_eq_iff n.address a,
  lookup-insert n.address a n m,
  lookup-latest_of a ns (insert n.address n m),
)

latest_at : (a : Text) (ns : List Node) → lookup a (latest_of ns []) ≡ last_at a ns
unfolding lookup
latest_at a ns = ground (arith, lookup-latest_of a ns [])

-- What a push of the registry leaves of a value at an address: a known address that is sent again
-- keeps its value, a new one starts at `fresh`, and one that is no longer sent is dropped.
abbrev pub carried : Option Node → Bool → {V : Type 0} → Option V → V → Option V
carried (some n) true old fresh = old
carried (some n) false old fresh = some fresh
carried none true old fresh = none
carried none false old fresh = old

-- After updateNodes the nodes are exactly the instances that the registry sent (the last one for
-- each address), a node that was known and is sent again keeps its health and its failure count,
-- a new one is healthy with no failure, and one that is gone loses both.
pub update_nodes_lem :
    (hc : HealthChecker) (ns : List Node) (a : Text)
    → (lookup a (update_nodes hc ns).nodes ≡ last_at a ns)
      × (lookup a (update_nodes hc ns).failure_count
          ≡ carried (last_at a ns) (contains a hc.nodes) (lookup a hc.failure_count) 0)
      × (lookup a (update_nodes hc ns).healthy_nodes
          ≡ carried (last_at a ns) (contains a hc.nodes) (lookup a hc.healthy_nodes) true)
unfolding update_nodes
update_nodes_lem hc ns a =
    let latest = latest_of ns [] in
    let u = latest_of-Unique ns [] tt in
    let pruned = prune latest (keys hc.nodes) hc in
    let known = any-keys a hc.nodes in
    let n = prune-nodes latest a (keys hc.nodes) hc in
    let sent = latest_at a ns in
    (
      ground (arith, known, n, sent, adopt-nodes a latest pruned u),
      ground (
        arith,
        known,
        n,
        sent,
        prune-failures latest a (keys hc.nodes) hc,
        adopt-failures a latest pruned u,
      ),
      ground (
        arith,
        known,
        n,
        sent,
        prune-healthy latest a (keys hc.nodes) hc,
        adopt-healthy a latest pruned u,
      ),
    )
