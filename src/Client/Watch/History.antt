-- ===== src/Client/Watch/History.antt =====
-- The steps of the watcher of client/servicewatch.go, one by one, and their histories.
use ecommerce_gateway.Common.{
  ℕ, ◌≡◌, ◌∙◌, ap, refl, arith, true, false, not, Option, none, some, List, Text, text_eq,
  text_eq_iff, lookup, insert, lookup-delete, is_some, any, Bool-cases, Option-cases, inl, inr,
  is_empty,
}
use ecommerce_gateway.Client.Watch.{
  ServiceWatcher, WatcherStatus, WatchLoop, Applier, ServiceInstance, Step, Reach, start, next,
  registers, delivers, caches, calls, creates, cancels, removes, stops, exits, appliers_of, is_loop,
  is_cancelled, leave, with_status, with_applier, is_current, cancel_of, stop_watcher_if_unused,
  remove_watcher, watch_created, loop_exit, callback, callback_all, delete_all, do_callback,
  set_selected_cache, remove_appliers, cancel, deliver,
}
use ecommerce_gateway.Client.Watch.Loops.{
  any-cancel_loop-running, any-cancel_loop-cancelled, any-cancel_loop, any-select-running,
  any-select-false,
}
use ecommerce_gateway.Client.Watch.Invariant.{
  Served, IsWatched, Keeps-IsWatched, insert-IsWatched, register-IsWatched, contains-appliers_of,
  new_service_watcher-IsWatched, replace-Keeps,
}

with_applier-IsWatched :
    (f : Applier → Applier) (s : ServiceWatcher) (e uuid : Text)
    → IsWatched s
    → IsWatched (with_applier f s e uuid)
unfolding with_applier
with_applier-IsWatched f s e uuid v = elim (Option-cases (lookup uuid (appliers_of s e))) [
  | inl missing ↦ rw (with_applier, missing) v
  | inr (a, found) ↦
      rw (with_applier, found)
        (insert-IsWatched s e (insert uuid (f a) (appliers_of s e))
          (v.watched e (contains-appliers_of s e uuid a found)) v)
]

do_callback-IsWatched :
    (s : ServiceWatcher) (e : Text) (services : List ServiceInstance)
    → IsWatched s
    → IsWatched (do_callback s e services)
unfolding do_callback
do_callback-IsWatched s e services v = elim (Option-cases (lookup e s.appliers)) [
  | inl missing ↦ rw (do_callback, missing) v
  | inr (m, found) ↦
      rw (do_callback, found)
        (insert-IsWatched s e (callback_all services m) (v.watched e (ap is_some found)) v)
]

remove_appliers-IsWatched :
    (s : ServiceWatcher) (e : Text) (uuids : List Text)
    → IsWatched s
    → IsWatched (remove_appliers s e uuids)
unfolding remove_appliers
remove_appliers-IsWatched s e uuids v = elim (Option-cases (lookup e s.appliers)) [
  | inl missing ↦ rw (remove_appliers, missing) v
  | inr (m, found) ↦
      rw (remove_appliers, found)
        (insert-IsWatched s e (delete_all uuids m) (v.watched e (ap is_some found)) v)
]

with_status-IsWatched :
    (f : WatcherStatus → WatcherStatus) (s : ServiceWatcher) (e : Text)
    → ((ws : WatcherStatus) → ws.id ≡ (f ws).id)
    → IsWatched s
    → IsWatched (with_status f s e)
unfolding with_status
with_status-IsWatched f s e same v = elim (Option-cases (lookup e s.watcher_status)) [
  | inl missing ↦ rw (with_status, missing) v
  | inr (ws, found) ↦
      rw (with_status, found)
        (Keeps-IsWatched s (record s { watcher_status = insert e (f ws) s.watcher_status })
          (replace-Keeps s e ws (f ws) found (same ws) v) v)
]

set_selected_cache-IsWatched :
    (s : ServiceWatcher) (e : Text) (status : ℕ) (services : List ServiceInstance)
    → IsWatched s
    → IsWatched (set_selected_cache s e status services).0
unfolding set_selected_cache
set_selected_cache-IsWatched s e status services v = elim (Bool-cases (is_current s e status)) [
  | inl current ↦
      rw current (
        with_status-IsWatched (λ ws. record ws { selected_instances = services }) s e (λ ws. refl)
          v)
  | inr gone ↦ rw gone v
]

leave-IsWatched :
    (s : ServiceWatcher) (e : Text) (status : ℕ)
    → is_current s e status ≡ false
    → IsWatched s
    → IsWatched (leave s e status)
unfolding leave is_current
leave-IsWatched s e status gone v = record {
  watched = v.watched;
  served = λ f ws h.
      let old = v.served f ws h in
      (
        any-select-running e f status ws.id s.loops (ground (arith, gone, h, text_eq_iff e f))
            ∙ old.0,
        any-select-false (is_cancelled f ws.id) (λ l. not (is_loop e status l)) s.loops old.1,
        old.2,
      );
  unused = λ f n h.
      any-select-false (is_loop f n) (λ l. not (is_loop e status l)) s.loops (v.unused f n h);
}

not-is_current :
    (s : ServiceWatcher) (e : Text) (status : ℕ)
    → any (is_cancelled e status) s.loops ≡ true
    → IsWatched s
    → is_current s e status ≡ false
unfolding is_current
not-is_current s e status done v = elim (Option-cases (lookup e s.watcher_status)) [
  | inl missing ↦ rw (is_current, missing) refl
  | inr (ws, found) ↦ rw (is_current, found) (grind (arith, done, v.served e ws found))
]

loop_exit-IsWatched :
    (s : ServiceWatcher) (e : Text) (status : ℕ)
    → any (is_cancelled e status) s.loops ≡ true
    → IsWatched s
    → IsWatched (loop_exit s e status)
unfolding loop_exit remove_watcher
loop_exit-IsWatched s e status done v =
    let gone = not-is_current s e status done v in rw gone (leave-IsWatched s e status gone v)

watch_created-IsWatched :
    (s : ServiceWatcher) (e : Text) (status : ℕ)
    → IsWatched s
    → IsWatched (watch_created s e status)
unfolding watch_created
watch_created-IsWatched s e status v = elim (Bool-cases (is_current s e status)) [
  | inl current ↦
      rw current (with_status-IsWatched (λ ws. record ws { watching = true }) s e (λ ws. refl) v)
  | inr gone ↦ rw gone (leave-IsWatched s e status gone v)
]

cancel_of-Served :
    (o : Option WatcherStatus) (e f : Text) (bound : ℕ) (loops : List WatchLoop)
    (ws : WatcherStatus)
    → text_eq e f ≡ false
    → Served loops f bound ws
    → Served (cancel_of o e loops) f bound ws
unfolding cancel_of
cancel_of-Served none e f bound loops ws other h = h
cancel_of-Served (some old) e f bound loops ws other h = (
  any-cancel_loop-running e f old.id ws.id loops other ∙ h.0,
  any-cancel_loop-cancelled e f old.id ws.id loops other ∙ h.1,
  h.2,
)

any-cancel_of :
    (o : Option WatcherStatus) (e f : Text) (n : ℕ) (loops : List WatchLoop)
    → any (is_loop f n) (cancel_of o e loops) ≡ any (is_loop f n) loops
unfolding cancel_of
any-cancel_of none e f n loops = refl
any-cancel_of (some old) e f n loops = any-cancel_loop e f old.id n loops

stop-IsWatched :
    (s : ServiceWatcher) (e : Text) → IsWatched s → IsWatched (stop_watcher_if_unused s e)
unfolding stop_watcher_if_unused
stop-IsWatched s e v = elim (Bool-cases (is_empty (appliers_of s e))) [
  | inr used ↦ rw used v
  | inl unused ↦ rw unused (record {
    watched = λ f h.
        ground
          (arith, h, v.watched f, lookup-delete e f s.appliers, lookup-delete e f s.watcher_status);
    served = λ f ws h. elim (Bool-cases (text_eq e f)) [
      | inl same ↦ absurd (ground (arith, same, h, lookup-delete e f s.watcher_status))
      | inr other ↦
          cancel_of-Served (lookup e s.watcher_status) e f s.next_status s.loops ws other
            (v.served f ws (ground (arith, other, h, lookup-delete e f s.watcher_status)))
    ];
    unused = λ f n h. any-cancel_of (lookup e s.watcher_status) e f n s.loops ∙ v.unused f n h;
  })
]

Step-IsWatched : {s t : ServiceWatcher} → Step s t → IsWatched s → IsWatched t
unfolding deliver cancel
Step-IsWatched (registers s e uuid a) v = register-IsWatched s e uuid a v
Step-IsWatched (delivers s e uuid services) v =
    with_applier-IsWatched (callback services) s e uuid v
Step-IsWatched (caches s e status services) v = set_selected_cache-IsWatched s e status services v
Step-IsWatched (calls s e services) v = do_callback-IsWatched s e services v
Step-IsWatched (creates s e status) v = watch_created-IsWatched s e status v
Step-IsWatched (cancels s e uuid) v =
    with_applier-IsWatched (λ a. record a { canceled = true }) s e uuid v
Step-IsWatched (removes s e uuids) v = remove_appliers-IsWatched s e uuids v
Step-IsWatched (stops s e) v = stop-IsWatched s e v
Step-IsWatched (exits s e status done) v = loop_exit-IsWatched s e status done v

-- After any steps, an endpoint with appliers has a status, and each status has a loop of its own
-- that runs and none that is canceled: as long as loops exit only when their context is done, no
-- applier is left without a watch.
pub Reach-IsWatched : {s : ServiceWatcher} → Reach s → IsWatched s
Reach-IsWatched start = new_service_watcher-IsWatched
Reach-IsWatched (next r st) = Step-IsWatched st (Reach-IsWatched r)
