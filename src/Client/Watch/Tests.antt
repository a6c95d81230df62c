-- ===== src/Client/Watch/Tests.antt =====
-- The watcher of client/servicewatch.go with two appliers of one service.
use ecommerce_gateway.Common.{
  ◌≡◌, refl, true, false, none, some, List, [], ◌∷◌, Text, bytes, lookup, insert, text_eq, is_empty,
  ◌++◌, delete,
}
use mathlib.Core.List.{Perm}
use ecommerce_gateway.Client.Watch.{
  ServiceWatcher, ServiceInstance, Applier, new_service_watcher, register, apply_services,
  sort_instances, cancel, clean_endpoint, deliver, callback, is_current, get_selected_cache,
  appliers_of, start, next, registers, caches, calls, cancels, watch_endpoint, add_applier,
  with_applier, set_selected_cache, with_status, do_callback, callback_all, canceled_keys,
  remove_appliers, delete_all, stop_watcher_if_unused,
}
use ecommerce_gateway.Client.Watch.Invariant.{IsWatched}
use ecommerce_gateway.Client.Watch.History.{Reach-IsWatched}
use ecommerce_gateway.Client.Watch.Delivery.{
  Delivered, is_sorted, apply_services_lem, late_delivery,
}

abbrev instance_at : Text → ServiceInstance
instance_at address = record {
  id = address;
  name = bytes "orders";
  version = [];
  metadata = [];
  endpoints = (bytes "http://" ++ address) ∷ [];
}

abbrev fresh : Applier
fresh = record { canceled = false; received = [] }

abbrev orders : Text
orders = bytes "orders"

abbrev first : List ServiceInstance
first = instance_at (bytes "10.0.0.1:80") ∷ []

abbrev second : List ServiceInstance
second = instance_at (bytes "10.0.0.2:80") ∷ []

abbrev one : ServiceWatcher
one = register new_service_watcher orders (bytes "a") (some fresh)

abbrev pushed : ServiceWatcher
pushed = apply_services one orders 0 first

abbrev canceled_one : ServiceWatcher
canceled_one = cancel (register pushed orders (bytes "b") (some fresh)) orders (bytes "a")

after_cleanup : lookup (bytes "a") (appliers_of (clean_endpoint canceled_one orders) orders) ≡ none
unfolding new_service_watcher register watch_endpoint add_applier appliers_of lookup insert text_eq
    apply_services set_selected_cache is_current with_status do_callback callback_all callback
    cancel with_applier clean_endpoint canceled_keys remove_appliers delete_all delete
    stop_watcher_if_unused get_selected_cache
after_cleanup = refl

abbrev two : ServiceWatcher
two = register pushed orders (bytes "b") (some fresh)

Reach-IsWatched_example : IsWatched (cancel two orders (bytes "a"))
unfolding apply_services set_selected_cache lookup register new_service_watcher insert text_eq
Reach-IsWatched_example = Reach-IsWatched (
    next
      (next
        (next
          (next (next start (registers new_service_watcher orders (bytes "a") (some fresh)))
            (caches one orders 0 first))
          (calls (set_selected_cache one orders 0 first).0 orders first))
        (registers pushed orders (bytes "b") (some fresh)))
      (cancels two orders (bytes "a")))

-- The registry's list is delivered in the order of the IDs.
apply_services_lem_example :
    let unsorted = instance_at (bytes "10.0.0.2:80") ∷ instance_at (bytes "10.0.0.1:80") ∷ [] in
    let t = apply_services one orders 0 unsorted in
    (is_empty unsorted ≡ false
      → is_current one orders 0 ≡ true
      → Delivered one t orders (sort_instances unsorted)
        × Perm (sort_instances unsorted) unsorted
        × (is_sorted (sort_instances unsorted) ≡ true))
    × (is_empty unsorted ≡ true → t ≡ one)
    × (is_current one orders 0 ≡ false → t ≡ one)
apply_services_lem_example =
    apply_services_lem one orders 0
      (instance_at (bytes "10.0.0.2:80") ∷ instance_at (bytes "10.0.0.1:80") ∷ [])

late_delivery_example :
    let t =
      deliver
        (apply_services (register pushed orders (bytes "b") (some fresh)) orders 0 second)
        orders
        (bytes "b")
        first in
    (lookup (bytes "b") (appliers_of t orders)
      ≡ some (record fresh { received = first ∷ second ∷ [] }))
    × (get_selected_cache t orders ≡ some second)
unfolding new_service_watcher register watch_endpoint add_applier appliers_of lookup insert text_eq
    apply_services set_selected_cache is_current with_status do_callback callback_all callback
    cancel with_applier clean_endpoint canceled_keys remove_appliers delete_all delete
    stop_watcher_if_unused get_selected_cache
late_delivery_example =
    late_delivery pushed orders (bytes "b") 0 first second fresh refl refl refl refl refl
