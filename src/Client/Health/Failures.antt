-- ===== src/Client/Health/Failures.antt =====
-- Counting failures up to the limit, recovery, and the probe that answers too late, in
-- client/health_checker.go.
use ecommerce_gateway.Common.{
  ℕ, zero, suc, ◌+◌, ◌<◌, at_least, true, not, ◌≡◌, refl, arith, none, some, List, Text,
  text_eq_refl, lookup, contains, ap, ◌∙◌, lookup-insert,
}
use ecommerce_gateway.Client.Node.{Node}
use ecommerce_gateway.Client.Health.{
  HealthChecker, mark_node_failure, check_node, answered, is_healthy, update_nodes,
}
use ecommerce_gateway.Client.Health.Update.{last_at, update_nodes_lem, update_nodes-max_failures}
use ecommerce_gateway.Client.Health.Invariant.{
  IsValid, mark_node_failure-IsValid, update_nodes-IsValid,
}

-- `k` failures in a row, of probes or of requests.
unfoldable pub fail_times : ℕ → HealthChecker → Text → HealthChecker
fail_times zero hc addr = hc
fail_times (suc k) hc addr = fail_times k (mark_node_failure hc addr) addr

mark_node_failure-count :
    (hc : HealthChecker) (addr : Text) (n : ℕ)
    → lookup addr hc.failure_count ≡ some n
    → (lookup addr (mark_node_failure hc addr).failure_count ≡ some (n + 1))
      × ((mark_node_failure hc addr).max_failures ≡ hc.max_failures)
unfolding mark_node_failure
mark_node_failure-count hc addr n e =
    ground (arith, text_eq_refl addr, lookup-insert addr addr (n + 1) hc.failure_count)

-- Failures at one address are counted one by one.
pub fail_times-count :
    (k : ℕ) (hc : HealthChecker) (addr : Text) (n : ℕ)
    → lookup addr hc.failure_count ≡ some n
    → lookup addr (fail_times k hc addr).failure_count ≡ some (n + k)
unfolding fail_times
fail_times-count zero hc addr n e = ground arith
fail_times-count (suc k) hc addr n e = ground (
  arith,
  mark_node_failure-count hc addr n e,
  fail_times-count k (mark_node_failure hc addr) addr (n + 1),
)

pub fail_times-max :
    (k : ℕ) (hc : HealthChecker) (addr : Text)
    → (fail_times k hc addr).max_failures ≡ hc.max_failures
unfolding fail_times mark_node_failure
fail_times-max zero hc addr = refl
fail_times-max (suc k) hc addr = ground (arith, fail_times-max k (mark_node_failure hc addr) addr)

fail_times-IsValid :
    (k : ℕ) (hc : HealthChecker) (addr : Text) → IsValid hc → IsValid (fail_times k hc addr)
unfolding fail_times
fail_times-IsValid zero hc addr v = v
fail_times-IsValid (suc k) hc addr v =
    fail_times-IsValid k (mark_node_failure hc addr) addr (mark_node_failure-IsValid hc addr v)

health_of_count :
    (hc : HealthChecker) (node : Node) (n : ℕ)
    → IsValid hc
    → lookup node.address hc.failure_count ≡ some n
    → is_healthy hc node ≡ not (at_least n hc.max_failures)
unfolding is_healthy
health_of_count hc node n v e = ground (arith, v.agree node.address)

mark_node_failure-nodes :
    (hc : HealthChecker) (addr : Text) → (mark_node_failure hc addr).nodes ≡ hc.nodes
unfolding mark_node_failure
mark_node_failure-nodes hc addr = ground arith

fail_times-nodes :
    (k : ℕ) (hc : HealthChecker) (addr : Text) → (fail_times k hc addr).nodes ≡ hc.nodes
unfolding fail_times
fail_times-nodes zero hc addr = refl
fail_times-nodes (suc k) hc addr =
    fail_times-nodes k (mark_node_failure hc addr) addr ∙ mark_node_failure-nodes hc addr

check_node-nodes :
    (hc : HealthChecker) (addr : Text) (code : ℕ)
    → (check_node hc addr (answered code)).nodes ≡ hc.nodes
unfolding check_node
check_node-nodes hc addr code = ground arith

-- A node with `n` failures takes `j` more, the registry sends a list in which it still stands, and
-- `k` more failures follow: it has `n + j + k` failures, and is healthy exactly while that is below
-- the limit. The push neither pardons nor forgets.
pub failures_across_update :
    (hc : HealthChecker) (node sent : Node) (ns : List Node) (n j k : ℕ)
    → IsValid hc
    → lookup node.address hc.failure_count ≡ some n
    → contains node.address hc.nodes ≡ true
    → last_at node.address ns ≡ some sent
    → let after = fail_times k (update_nodes (fail_times j hc node.address) ns) node.address in
      (lookup node.address after.failure_count ≡ some (n + j + k))
      × (is_healthy after node ≡ not (at_least (n + j + k) hc.max_failures))
failures_across_update hc node sent ns n j k v e known kept =
    let a = node.address in
    let failed = fail_times j hc a in
    let pushed = update_nodes failed ns in
    let here : lookup a pushed.failure_count ≡ some (n + j) =
      ground (
        arith,
        fail_times-count j hc a n e,
        fail_times-nodes j hc a,
        update_nodes_lem failed ns a,
      ) in
    let count = fail_times-count k pushed a (n + j) here in
    let valid =
      fail_times-IsValid k pushed a
        (update_nodes-IsValid failed ns (fail_times-IsValid j hc a v)) in
    (
      count,
      ground (
        arith,
        health_of_count (fail_times k pushed a) node (n + j + k) valid count,
        fail_times-max k pushed a,
        update_nodes-max_failures failed ns,
        fail_times-max j hc a,
      ),
    )

-- A probe that passes clears the failures of its address and makes it healthy, whatever came
-- before.
pub check_node-recovers :
    (hc : HealthChecker) (node : Node) (code : ℕ)
    → code < 500
    → (lookup node.address (check_node hc node.address (answered code)).failure_count ≡ some 0)
      × (is_healthy (check_node hc node.address (answered code)) node ≡ true)
unfolding check_node is_healthy
check_node-recovers hc node code h = ground (
  arith,
  text_eq_refl node.address,
  lookup-insert node.address node.address 0 hc.failure_count,
  lookup-insert node.address node.address true hc.healthy_nodes,
)

-- When a probe passes after the registry has dropped its node, the address counts as healthy with
-- no node behind it, and no later push without that address removes the entry.
pub late_probe_stays :
    (hc : HealthChecker) (node : Node) (ns later : List Node) (code : ℕ)
    → code < 500
    → last_at node.address ns ≡ none
    → last_at node.address later ≡ none
    → let after =
        update_nodes (check_node (update_nodes hc ns) node.address (answered code)) later in
      (lookup node.address after.nodes ≡ none)
      × (lookup node.address after.failure_count ≡ some 0)
      × (is_healthy after node ≡ true)
unfolding is_healthy
late_probe_stays hc node ns later code h gone still =
    let a = node.address in
    let pushed = update_nodes hc ns in
    let probed = check_node pushed a (answered code) in
    let no_node : lookup a probed.nodes ≡ none =
      ap (lookup a) (check_node-nodes pushed a code) ∙ (update_nodes_lem hc ns a).0 ∙ gone in
    ground (arith, no_node, check_node-recovers pushed node code h, update_nodes_lem probed later a)
