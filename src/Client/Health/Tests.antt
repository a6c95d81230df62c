-- ===== src/Client/Health/Tests.antt =====
-- The laws of client/health_checker.go at concrete inputs, and runs of its operations.
use ecommerce_gateway.Common.{
  pos, true, false, ◌≡◌, refl, arith, none, some, List, [], ◌∷◌, bytes, lookup, insert, text_eq,
  contains,
}
use ecommerce_gateway.Client.Node.{Node, new_node, http}
use ecommerce_gateway.Client.Health.{
  HealthChecker, Event, marks, checks, updates, no_answer, answered, new_health_checker,
  register_node, run, is_healthy, update_nodes, check_node, mark_unhealthy, register_all,
}
use ecommerce_gateway.Client.Health.Update.{update_nodes_lem, last_at, carried}
use ecommerce_gateway.Client.Health.Invariant.{IsValid, history-IsValid}
use ecommerce_gateway.Client.Health.Failures.{fail_times, failures_across_update, late_probe_stays}
use ecommerce_gateway.Client.Health.Loop.{
  stop-goroutine, stop, round_done, moves, starts, runs, goes_on, ticks, stops, rounds, fresh,
  panicked, checking, blocked, returned,
}

abbrev node_a : Node
node_a = new_node (bytes "10.0.0.1:80") http none [] [] []

abbrev node_b : Node
node_b = new_node (bytes "10.0.0.2:80") http none [] [] []

abbrev checker : HealthChecker
checker = new_health_checker (node_a ∷ []) (pos 5) (pos 3) (pos 3)

abbrev history : List Event
history =
    marks node_a
    ∷ updates (node_a ∷ node_b ∷ [])
    ∷ checks node_a.address no_answer
    ∷ marks node_a
    ∷ []

unhealthy_run : is_healthy (run checker history) node_a ≡ false
unfolding run new_health_checker update_nodes is_healthy new_node lookup insert text_eq check_node
    mark_unhealthy
unhealthy_run = refl

panic_run :
    (moves fresh (starts ∷ goes_on runs ∷ goes_on ticks ∷ stops ∷ goes_on rounds ∷ [])).goroutine
    ≡ panicked
unfolding moves
panic_run = refl

update_nodes_lem_example :
    (lookup node_b.address (update_nodes checker (node_b ∷ [])).nodes
      ≡ last_at node_b.address (node_b ∷ []))
    × (lookup node_b.address (update_nodes checker (node_b ∷ [])).failure_count
        ≡ carried
            (last_at node_b.address (node_b ∷ []))
            (contains node_b.address checker.nodes)
            (lookup node_b.address checker.failure_count)
            0)
    × (lookup node_b.address (update_nodes checker (node_b ∷ [])).healthy_nodes
        ≡ carried
            (last_at node_b.address (node_b ∷ []))
            (contains node_b.address checker.nodes)
            (lookup node_b.address checker.healthy_nodes)
            true)
update_nodes_lem_example = update_nodes_lem checker (node_b ∷ []) node_b.address

history-IsValid_example : IsValid (run checker history)
history-IsValid_example = history-IsValid (node_a ∷ []) (pos 5) (pos 3) (pos 3) history refl

failures_across_update_example :
    let after =
      fail_times 2
        (update_nodes (fail_times 1 checker node_a.address) (node_a ∷ node_b ∷ []))
        node_a.address in
    (lookup node_a.address after.failure_count ≡ some 3) × (is_healthy after node_a ≡ false)
unfolding new_health_checker register_all register_node new_node lookup insert text_eq run
failures_across_update_example =
    failures_across_update checker node_a node_a (node_a ∷ node_b ∷ []) 0 1 2
      (history-IsValid (node_a ∷ []) (pos 5) (pos 3) (pos 3) [] refl) refl refl refl

late_probe_stays_example :
    let after =
      update_nodes
        (check_node (update_nodes checker (node_b ∷ [])) node_a.address (answered 200))
        [] in
    (lookup node_a.address after.nodes ≡ none)
    × (lookup node_a.address after.failure_count ≡ some 0)
    × (is_healthy after node_a ≡ true)
unfolding new_node text_eq
late_probe_stays_example =
    late_probe_stays checker node_a (node_b ∷ []) [] 200 (omega arith) refl refl

stop-goroutine_example :
    ((moves fresh (starts ∷ goes_on runs ∷ goes_on ticks ∷ [])).goroutine ≡ checking
      → (round_done (stop (moves fresh (starts ∷ goes_on runs ∷ goes_on ticks ∷ [])))).goroutine
        ≡ panicked)
    × ((moves fresh (starts ∷ goes_on runs ∷ goes_on ticks ∷ [])).goroutine ≡ blocked
        → (round_done (stop (moves fresh (starts ∷ goes_on runs ∷ goes_on ticks ∷ [])))).goroutine
          ≡ returned)
stop-goroutine_example = stop-goroutine (moves fresh (starts ∷ goes_on runs ∷ goes_on ticks ∷ []))
