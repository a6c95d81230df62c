-- ===== src/Client/Factory/Laws.antt =====
-- Which nodes client/factory.go gives to the picker and to the health checker.
use ecommerce_gateway.Common.{
  ℕ, zero, suc, ◌≡◌, refl, arith, ℤ, pos, negsuc, true, false, is_positive, Option, none, some, inl,
  inr, List, [], ◌∷◌, Text, to_lower, is_empty, lookup, contains, All, Option-cases,
}
use ecommerce_gateway.Client.Node.{Node, Protocol, protocol_name, new_node}
use ecommerce_gateway.Client.Health.{HealthChecker}
use ecommerce_gateway.Client.Health.Update.{update_nodes_lem, last_at, carried}
use ecommerce_gateway.Client.Watch.{ServiceInstance}
use ecommerce_gateway.Http.{Parse}
use ecommerce_gateway.Client.Target.{parse_endpoint}
use ecommerce_gateway.Config.Types.{Backend}
use ecommerce_gateway.Client.Factory.{
  node_weight, extract_address, host_of, host_port, with_port, fallback, or_fallback, address_of,
  service_node, add_node, nodes_of, NodeApplier, update_health, node_callback, extract_port,
}

-- A node as the registry's instances give it: it has an address, the protocol of the endpoint, and
-- a weight above zero.
abbrev pub IsUsableNode : Protocol → Node → Type 0
IsUsableNode protocol n =
    (is_empty n.address ≡ false)
    × (n.protocol ≡ protocol)
    × ((w : ℤ) × (n.weight ≡ some w) × (is_positive w ≡ true))

node_weight-positive : (s : ServiceInstance) → is_positive (node_weight s) ≡ true
unfolding node_weight
node_weight-positive s = ground arith

filled : (host : Text) (port : ℕ) → is_empty (host_port host port) ≡ false
filled [] port = refl
filled (c ∷ host) port = refl

extract_address-filled :
    (parse : Parse) (endpoints : List Text) (port : ℕ)
    → is_empty (extract_address parse endpoints port) ≡ false
unfolding extract_address
extract_address-filled parse [] port = refl
extract_address-filled parse (e ∷ endpoints) port =
    let rest = extract_address-filled parse endpoints port in
    elim (Option-cases (parse e)) [
      | inl failed ↦ ground (arith, failed, rest)
      | inr (u, parsed) ↦ ground (arith, parsed, rest, filled (host_of u) port)
    ]

with_port-filled :
    (parse : Parse) (endpoints : List Text) (port : ℤ) (addr : Text)
    → with_port parse endpoints port ≡ some addr
    → is_empty addr ≡ false
unfolding with_port
with_port-filled parse endpoints (pos zero) addr h = cc
with_port-filled parse endpoints (pos (suc n)) addr h =
    ground (arith, h, extract_address-filled parse endpoints (suc n))
with_port-filled parse endpoints (negsuc n) addr h = cc

fallback-filled :
    (parse : Parse) (scheme : Text) (endpoints : List Text) (addr : Text)
    → fallback parse scheme endpoints ≡ some addr
    → is_empty addr ≡ false
unfolding fallback
fallback-filled parse scheme endpoints addr h =
    ground (arith, h, with_port-filled parse endpoints (extract_port parse endpoints) addr)

or_fallback-filled :
    (parse : Parse) (scheme : Text) (endpoints : List Text) (o : Option Text) (addr : Text)
    → or_fallback parse scheme endpoints o ≡ some addr
    → is_empty addr ≡ false
unfolding or_fallback
or_fallback-filled parse scheme endpoints none addr h =
    fallback-filled parse scheme endpoints addr h
or_fallback-filled parse scheme endpoints (some []) addr h =
    fallback-filled parse scheme endpoints addr h
or_fallback-filled parse scheme endpoints (some (c ∷ s)) addr h = ground (arith, h)

service_node-IsUsableNode :
    (protocol : Protocol) (s : ServiceInstance) (addr : Text)
    → is_empty addr ≡ false
    → IsUsableNode protocol (service_node protocol s addr)
unfolding new_node
service_node-IsUsableNode protocol s addr full =
    (full, refl, (node_weight s, refl, node_weight-positive s))

add_node-IsUsableNode :
    (protocol : Protocol) (s : ServiceInstance) (o : Option Text) (nodes : List Node)
    → ((addr : Text) → o ≡ some addr → is_empty addr ≡ false)
    → All (IsUsableNode protocol) nodes
    → All (IsUsableNode protocol) (add_node protocol s o nodes)
unfolding add_node
add_node-IsUsableNode protocol s none nodes full usable = usable
add_node-IsUsableNode protocol s (some addr) nodes full usable =
    (service_node-IsUsableNode protocol s addr (full addr refl), usable)

nodes_of-IsUsableNode :
    (parse : Parse) (protocol : Protocol) (services : List ServiceInstance)
    → All (IsUsableNode protocol) (nodes_of parse protocol services)
unfolding nodes_of address_of
nodes_of-IsUsableNode parse protocol [] = tt
nodes_of-IsUsableNode parse protocol (s ∷ services) =
    let scheme = to_lower (protocol_name protocol) in
    add_node-IsUsableNode protocol s _ _
      (or_fallback-filled parse scheme s.endpoints (parse_endpoint parse s.endpoints scheme false))
      (nodes_of-IsUsableNode parse protocol services)

-- The health checker knows the nodes of a list, those that were known with the failures and the
-- health that they had.
abbrev pub Tracks : Option HealthChecker → Option HealthChecker → List Node → Type 0
Tracks none after nodes = after ≡ none
Tracks (some hc) none nodes = ⊥
Tracks (some hc) (some after) nodes =
    (a : Text)
    → (lookup a after.nodes ≡ last_at a nodes)
      × (lookup a after.failure_count
          ≡ carried (last_at a nodes) (contains a hc.nodes) (lookup a hc.failure_count) 0)
      × (lookup a after.healthy_nodes
          ≡ carried (last_at a nodes) (contains a hc.nodes) (lookup a hc.healthy_nodes) true)

update_health-Tracks :
    (health : Option HealthChecker) (nodes : List Node)
    → Tracks health (update_health health nodes) nodes
unfolding update_health
update_health-Tracks none nodes = refl
update_health-Tracks (some hc) nodes = λ a. update_nodes_lem hc nodes a

-- The nodes are those of the instances that have an address for the scheme, in their order: each
-- has that address and the name, the version and the metadata of its instance.
pub data IsGiven (parse : Parse) (scheme : Text) : List ServiceInstance → List Node → Type 0 where
  nothing : IsGiven parse scheme [] []
  skipped :
      {s : ServiceInstance} {services : List ServiceInstance} {nodes : List Node}
      → address_of parse scheme s.endpoints ≡ none
      → IsGiven parse scheme services nodes
      → IsGiven parse scheme (s ∷ services) nodes
  taken :
      {s : ServiceInstance} {services : List ServiceInstance} {n : Node} {nodes : List Node}
      → address_of parse scheme s.endpoints ≡ some n.address
      → n.name ≡ s.name
      → n.version ≡ s.version
      → n.metadata ≡ s.metadata
      → IsGiven parse scheme services nodes
      → IsGiven parse scheme (s ∷ services) (n ∷ nodes)

add_node-IsGiven :
    (parse : Parse) (scheme : Text) (protocol : Protocol) (s : ServiceInstance)
    (services : List ServiceInstance) (nodes : List Node) (o : Option Text)
    → address_of parse scheme s.endpoints ≡ o
    → IsGiven parse scheme services nodes
    → IsGiven parse scheme (s ∷ services) (add_node protocol s o nodes)
unfolding add_node new_node
add_node-IsGiven parse scheme protocol s services nodes none e rest = IsGiven.skipped e rest
add_node-IsGiven parse scheme protocol s services nodes (some addr) e rest =
    IsGiven.taken e refl refl refl rest

nodes_of-IsGiven :
    (parse : Parse) (protocol : Protocol) (services : List ServiceInstance)
    → IsGiven parse (to_lower (protocol_name protocol)) services (nodes_of parse protocol services)
unfolding nodes_of
nodes_of-IsGiven parse protocol [] = IsGiven.nothing
nodes_of-IsGiven parse protocol (s ∷ services) =
    add_node-IsGiven parse (to_lower (protocol_name protocol)) protocol s services
      (nodes_of parse protocol services)
      (address_of parse (to_lower (protocol_name protocol)) s.endpoints) refl
      (nodes_of-IsGiven parse protocol services)

-- A list of instances that is not empty replaces all nodes of the picker of an applier that is not
-- canceled by those of the instances that have an address for the endpoint's protocol, in their
-- order and with the name, the version and the metadata of each, and the health checker knows the
-- same nodes, where it keeps the failures and the health of those that it knew. Every node has an
-- address that is not empty, the protocol of the endpoint and a weight above zero.
pub node_callback_lem :
    (parse : Parse) (services : List ServiceInstance) (na : NodeApplier)
    → na.canceled ≡ false
    → is_empty services ≡ false
    → ((node_callback parse services na).0 ≡ none)
      × IsGiven parse
          (to_lower (protocol_name na.protocol))
          services
          (node_callback parse services na).1.picker
      × All (IsUsableNode na.protocol) (node_callback parse services na).1.picker
      × Tracks na.health_checker
          (node_callback parse services na).1.health_checker
          (node_callback parse services na).1.picker
unfolding node_callback
node_callback_lem parse services na active sent =
    let nodes = nodes_of parse na.protocol services in
    rw (node_callback, active, sent)
      (
        refl,
        nodes_of-IsGiven parse na.protocol services,
        nodes_of-IsUsableNode parse na.protocol services,
        update_health-Tracks na.health_checker nodes,
      )

-- The applier behind a list of instances, but for what the list does not concern: its nodes, its
-- backends and the services that it watches.
abbrev pub with_backends : List Backend → List Text → List Node → NodeApplier → NodeApplier
with_backends backends watched picker na = record na {
  backends = backends;
  watched = watched;
  picker = picker;
}

-- The nodes that a list of instances, which is not empty, gives to the picker and to the health
-- checker of an applier that is not canceled depend neither on those that the picker has nor on the
-- backends of the endpoint or the services that it watches: the nodes of direct backends and those
-- of another service are not kept, nor added again.
pub node_callback-replaces :
    (parse : Parse) (services : List ServiceInstance) (na : NodeApplier) (backends : List Backend)
    (watched : List Text) (picker : List Node)
    → na.canceled ≡ false
    → is_empty services ≡ false
    → ((node_callback parse services (with_backends backends watched picker na)).1.picker
        ≡ (node_callback parse services na).1.picker)
      × ((node_callback parse services (with_backends backends watched picker na)).1.health_checker
          ≡ (node_callback parse services na).1.health_checker)
unfolding node_callback
node_callback-replaces parse services na backends watched picker active sent =
    rw (node_callback, active, sent) (refl, refl)
