-- ===== src/Client/Health.antt =====
-- client/health_checker.go: which nodes are healthy. Each operation runs under the checker's lock,
-- so a history is a sequence of whole operations; `checkNode` takes the lock after its request, so
-- its result may come in after any other operation.
pub mod Loop
pub mod Update
mod Failures
mod Invariant
mod Tests
use ecommerce_gateway.Common.{
  ℕ, suc, ◌+◌, ℤ, pos, at_least, Bool, true, false, not, ◌||◌, Option, none, some, List, [], ◌∷◌,
  Text, Map, lookup, insert, delete, contains, keys, if◌then◌else◌, leb,
}
use ecommerce_gateway.Client.Node.{Node}

pub record HealthChecker : Type 0 where
  -- address to health, to failures in a row, to instance
  pub healthy_nodes : Map Bool
  pub failure_count : Map ℕ
  pub nodes : Map Node
  pub interval : ℤ
  pub timeout : ℤ
  pub max_failures : ℤ

pub register_node : HealthChecker → Node → HealthChecker
register_node hc n = record hc {
  nodes = insert n.address n hc.nodes;
  healthy_nodes = insert n.address true hc.healthy_nodes;
  failure_count = insert n.address 0 hc.failure_count;
}

-- The three deletes of unregisterNode and updateNodes.
drop_node : Text → HealthChecker → HealthChecker
drop_node addr hc = record hc {
  nodes = delete addr hc.nodes;
  healthy_nodes = delete addr hc.healthy_nodes;
  failure_count = delete addr hc.failure_count;
}

pub unregister_node : HealthChecker → Node → HealthChecker
unfolding drop_node
unregister_node hc n = drop_node n.address hc

register_all : List Node → HealthChecker → HealthChecker
register_all [] hc = hc
register_all (n ∷ ns) hc = register_all ns (register_node hc n)

-- NewHealthChecker, with the values that its options set.
pub new_health_checker : List Node → ℤ → ℤ → ℤ → HealthChecker
unfolding register_all register_node
new_health_checker ns interval timeout max_failures = register_all ns (record {
  healthy_nodes = [];
  failure_count = [];
  nodes = [];
  interval = interval;
  timeout = timeout;
  max_failures = max_failures;
})

-- The map of the instances that the registry sent.
latest_of : List Node → Map Node → Map Node
latest_of [] latest = latest
latest_of (n ∷ ns) latest = latest_of ns (insert n.address n latest)

-- The loop that drops the nodes which are gone.
prune : Map Node → List Text → HealthChecker → HealthChecker
unfolding drop_node
prune latest [] hc = hc
prune latest (addr ∷ addrs) hc =
    prune latest addrs (if contains addr latest then hc else drop_node addr hc)

-- One round of the loop over the new map: only a new address starts as healthy.
adopt_node : Text → Node → HealthChecker → HealthChecker
adopt_node addr n hc =
    if contains addr hc.nodes then record hc { nodes = insert addr n hc.nodes } else record hc {
      healthy_nodes = insert addr true hc.healthy_nodes;
      failure_count = insert addr 0 hc.failure_count;
      nodes = insert addr n hc.nodes;
    }

adopt : Map Node → HealthChecker → HealthChecker
unfolding adopt_node
adopt [] hc = hc
adopt ((addr, n) ∷ rest) hc = adopt rest (adopt_node addr n hc)

pub update_nodes : HealthChecker → List Node → HealthChecker
unfolding latest_of prune adopt
update_nodes hc ns = let latest = latest_of ns [] in adopt latest (prune latest (keys hc.nodes) hc)

unfoldable pub is_healthy : HealthChecker → Node → Bool
is_healthy hc n = elim (lookup n.address hc.healthy_nodes) [ none ↦ false | some b ↦ b ]

-- markNodeFailure, and MarkUnhealthy with the node's address: an unknown address is ignored.
unfoldable pub mark_node_failure : HealthChecker → Text → HealthChecker
mark_node_failure hc addr = elim (lookup addr hc.failure_count) [
  | none ↦ hc
  | some n ↦
      if at_least (n + 1) hc.max_failures
      then record hc {
        failure_count = insert addr (n + 1) hc.failure_count;
        healthy_nodes = insert addr false hc.healthy_nodes;
      }
      else record hc { failure_count = insert addr (n + 1) hc.failure_count }
]

unfoldable pub mark_unhealthy : HealthChecker → Node → HealthChecker
unfolding mark_node_failure
mark_unhealthy hc n = mark_node_failure hc n.address

-- What the request to /healthz came to.
pub data Probe : Type 0 where
  bad_request no_answer : Probe
  answered : ℕ → Probe

-- The part of checkNode behind a probe that passed; it does not ask whether the node is known.
mark_passed : HealthChecker → Text → HealthChecker
mark_passed hc addr = record hc {
  failure_count = insert addr 0 hc.failure_count;
  healthy_nodes = insert addr true hc.healthy_nodes;
}

pub check_node : HealthChecker → Text → Probe → HealthChecker
unfolding mark_node_failure mark_passed
check_node hc addr bad_request = mark_node_failure hc addr
check_node hc addr no_answer = mark_node_failure hc addr
check_node hc addr (answered code) =
    if leb 500 code then mark_node_failure hc addr else mark_passed hc addr

-- The operations that change the maps.
pub data Event : Type 0 where
  registers unregisters marks : Node → Event
  updates : List Node → Event
  checks : Text → Probe → Event

pub step : HealthChecker → Event → HealthChecker
step hc (registers n) = register_node hc n
step hc (unregisters n) = unregister_node hc n
step hc (marks n) = mark_unhealthy hc n
step hc (updates ns) = update_nodes hc ns
step hc (checks addr probe) = check_node hc addr probe

pub run : HealthChecker → List Event → HealthChecker
unfolding step
run hc [] = hc
run hc (e ∷ es) = run (step hc e) es
