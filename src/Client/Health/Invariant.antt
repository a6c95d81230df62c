-- ===== src/Client/Health/Invariant.antt =====
-- What holds of the three maps of client/health_checker.go after any sequence of operations.
use ecommerce_gateway.Common.{
  Bool-cases, inl, inr, leb, ℕ, ◌+◌, ℤ, at_least, Bool, true, false, not, ◌≡◌, arith, Option, none,
  some, List, [], ◌∷◌, Text, text_eq_iff, lookup, lookup_or, lookup-insert, lookup-delete,
}
use ecommerce_gateway.Client.Node.{Node}
use ecommerce_gateway.Client.Health.{
  HealthChecker, Probe, bad_request, no_answer, answered, Event, registers, unregisters, marks,
  updates, checks, register_node, unregister_node, register_all, new_health_checker, update_nodes,
  mark_node_failure, mark_unhealthy, check_node, mark_passed, step, run,
}
use ecommerce_gateway.Client.Health.Update.{update_nodes_lem, update_nodes-max_failures}

-- How the entries of one address fit together: health and failure count stand or fall together,
-- a node has both, and it is healthy exactly while its failures are below the limit.
abbrev Agree : ℤ → Option ℕ → Option Bool → Option Node → Type 0
Agree max (some n) (some healthy) _ = healthy ≡ not (at_least n max)
Agree max none none none = Unit
Agree max none none (some n) = ⊥
Agree max none (some b) _ = ⊥
Agree max (some n) none _ = ⊥

pub record IsValid (hc : HealthChecker) : Type 0 where
  -- the limit is not zero or less
  pub limit : at_least 0 hc.max_failures ≡ false
  pub agree :
      (a : Text)
      → Agree hc.max_failures
          (lookup a hc.failure_count)
          (lookup a hc.healthy_nodes)
          (lookup a hc.nodes)

register_node-IsValid : (hc : HealthChecker) (n : Node) → IsValid hc → IsValid (register_node hc n)
unfolding register_node
register_node-IsValid hc n v = record {
  limit = v.limit;
  agree = λ a. ground (
    arith,
    v.limit,
    v.agree a,
    text_eq_iff n.address a,
    lookup-insert n.address a n hc.nodes,
    lookup-insert n.address a true hc.healthy_nodes,
    lookup-insert n.address a 0 hc.failure_count,
  );
}

unregister_node-IsValid :
    (hc : HealthChecker) (n : Node) → IsValid hc → IsValid (unregister_node hc n)
unfolding unregister_node
unregister_node-IsValid hc n v = record {
  limit = v.limit;
  agree = λ a. ground (
    arith,
    v.agree a,
    text_eq_iff n.address a,
    lookup-delete n.address a hc.nodes,
    lookup-delete n.address a hc.healthy_nodes,
    lookup-delete n.address a hc.failure_count,
  );
}

pub mark_node_failure-IsValid :
    (hc : HealthChecker) (addr : Text) → IsValid hc → IsValid (mark_node_failure hc addr)
unfolding mark_node_failure
mark_node_failure-IsValid hc addr v = record {
  limit = ground (arith, v.limit);
  agree = λ a. ground (
    arith,
    v.agree a,
    v.agree addr,
    text_eq_iff addr a,
    lookup-insert addr a (lookup_or addr 0 hc.failure_count + 1) hc.failure_count,
    lookup-insert addr a false hc.healthy_nodes,
  );
}

mark_passed-IsValid :
    (hc : HealthChecker) (addr : Text) → IsValid hc → IsValid (mark_passed hc addr)
unfolding mark_passed
mark_passed-IsValid hc addr v = record {
  limit = v.limit;
  agree = λ a. ground (
    arith,
    v.limit,
    v.agree a,
    text_eq_iff addr a,
    lookup-insert addr a 0 hc.failure_count,
    lookup-insert addr a true hc.healthy_nodes,
  );
}

check_node-IsValid :
    (hc : HealthChecker) (addr : Text) (probe : Probe)
    → IsValid hc
    → IsValid (check_node hc addr probe)
unfolding check_node
check_node-IsValid hc addr bad_request v = mark_node_failure-IsValid hc addr v
check_node-IsValid hc addr no_answer v = mark_node_failure-IsValid hc addr v
check_node-IsValid hc addr (answered code) v = elim (Bool-cases (leb 500 code)) [
  | inl bad ↦ rw bad (mark_node_failure-IsValid hc addr v)
  | inr good ↦ rw good (mark_passed-IsValid hc addr v)
]

pub update_nodes-IsValid :
    (hc : HealthChecker) (ns : List Node) → IsValid hc → IsValid (update_nodes hc ns)
update_nodes-IsValid hc ns v = record {
  limit = rw (update_nodes-max_failures hc ns) v.limit;
  agree = λ a.
      ground (arith, v.limit, v.agree a, update_nodes_lem hc ns a, update_nodes-max_failures hc ns);
}

step-IsValid : (hc : HealthChecker) (e : Event) → IsValid hc → IsValid (step hc e)
unfolding step mark_unhealthy
step-IsValid hc (registers n) v = register_node-IsValid hc n v
step-IsValid hc (unregisters n) v = unregister_node-IsValid hc n v
step-IsValid hc (marks n) v = mark_node_failure-IsValid hc n.address v
step-IsValid hc (updates ns) v = update_nodes-IsValid hc ns v
step-IsValid hc (checks addr probe) v = check_node-IsValid hc addr probe v

pub run-IsValid : (hc : HealthChecker) (es : List Event) → IsValid hc → IsValid (run hc es)
unfolding run
run-IsValid hc [] v = v
run-IsValid hc (e ∷ es) v = run-IsValid (step hc e) es (step-IsValid hc e v)

register_all-IsValid :
    (ns : List Node) (hc : HealthChecker) → IsValid hc → IsValid (register_all ns hc)
unfolding register_all
register_all-IsValid [] hc v = v
register_all-IsValid (n ∷ ns) hc v =
    register_all-IsValid ns (register_node hc n) (register_node-IsValid hc n v)

new_health_checker-IsValid :
    (ns : List Node) (interval timeout max : ℤ)
    → at_least 0 max ≡ false
    → IsValid (new_health_checker ns interval timeout max)
unfolding new_health_checker lookup
new_health_checker-IsValid ns interval timeout max h =
    register_all-IsValid ns _ (record { limit = h; agree = λ a. tt })

-- With a positive limit, after any operations in any order, late results of health checks among
-- them, a node counts as healthy exactly while its count of failures is below the limit, and every
-- node has a health and a count.
pub history-IsValid :
    (ns : List Node) (interval timeout max : ℤ) (es : List Event)
    → at_least 0 max ≡ false
    → IsValid (run (new_health_checker ns interval timeout max) es)
history-IsValid ns interval timeout max es h =
    run-IsValid _ es (new_health_checker-IsValid ns interval timeout max h)
