-- ===== src/Client/Watch/Invariant.antt =====
-- What holds of the watcher of client/servicewatch.go after any steps.
use ecommerce_gateway.Common.{
  ℕ, ◌+◌, ◌≤◌, ◌<◌, ◌≡◌, ap, refl, sym, arith, true, false, ◌&&◌, Option, none, some, List, [], ◌∷◌,
  Text, text_eq, text_eq_iff, text_eq_refl, Map, lookup, insert, contains, lookup-insert, is_some,
  any, ◌==◌, Bool-cases, Option-cases, inl, inr,
}
use mathlib.Core.Path.{subst}
use ecommerce_gateway.Client.Watch.{
  ServiceWatcher, WatcherStatus, WatchLoop, Applier, new_service_watcher, register, watch_endpoint,
  add_applier, appliers_of, is_loop, is_cancelled, is_running,
}
use ecommerce_gateway.Client.Watch.Loops.{any-is_cancelled-false}

-- The status of an endpoint has a loop that runs for it and none that is canceled.
abbrev pub Served : List WatchLoop → Text → ℕ → WatcherStatus → Type 0
Served loops e bound ws =
    (any (is_running e ws.id) loops ≡ true)
    × (any (is_cancelled e ws.id) loops ≡ false)
    × (ws.id < bound)

pub record IsWatched (s : ServiceWatcher) : Type 0 where
  -- an endpoint with appliers has a status
  pub watched : (e : Text) → contains e s.appliers ≡ true → contains e s.watcher_status ≡ true
  pub served :
      (e : Text) (ws : WatcherStatus)
      → lookup e s.watcher_status ≡ some ws
      → Served s.loops e s.next_status ws
  -- numbers are not given twice
  pub unused : (e : Text) (n : ℕ) → s.next_status ≤ n → any (is_loop e n) s.loops ≡ false

pub new_service_watcher-IsWatched : IsWatched new_service_watcher
unfolding new_service_watcher lookup any
new_service_watcher-IsWatched = record {
  watched = λ e h. h;
  served = λ e ws h. ground arith;
  unused = λ e n h. refl;
}

-- A step that leaves the loops as they are, and the numbers of the statuses.
pub record Keeps (s t : ServiceWatcher) : Type 0 where
  appliers : (e : Text) → contains e t.appliers ≡ true → contains e s.watcher_status ≡ true
  statuses :
      (e : Text) (ws : WatcherStatus)
      → lookup e t.watcher_status ≡ some ws
      → (old : WatcherStatus) × (lookup e s.watcher_status ≡ some old) × (old.id ≡ ws.id)
  endpoints : (e : Text) → contains e s.watcher_status ≡ true → contains e t.watcher_status ≡ true
  same_loops : t.loops ≡ s.loops
  same_next : t.next_status ≡ s.next_status

pub Keeps-IsWatched : (s t : ServiceWatcher) → Keeps s t → IsWatched s → IsWatched t
Keeps-IsWatched s t k v = record {
  watched = λ e h. k.endpoints e (k.appliers e h);
  served = λ e ws h.
      let old = k.statuses e ws h in
      rw (k.same_loops, k.same_next)
        (subst
          (λ n.
            (any (is_running e n) s.loops ≡ true)
            × (any (is_cancelled e n) s.loops ≡ false)
            × (n < s.next_status))
          old.2 (v.served e old.0 old.1));
  unused = λ e n h. rw k.same_loops (v.unused e n (subst (λ m. m ≤ n) k.same_next h));
}

any-is_loop-head :
    (e f : Text) (n m : ℕ) (loops : List WatchLoop)
    → any (is_loop f m) loops ≡ false
    → (text_eq e f && (n == m)) ≡ false
    → any (is_loop f m) (record { endpoint = e; status = n; cancelled = false } ∷ loops) ≡ false
unfolding any is_loop
any-is_loop-head e f n m loops h g = ground (arith, h, g)

abbrev status_at : ℕ → WatcherStatus
status_at n = record { id = n; watching = false; selected_instances = [] }

new_status :
    (s : ServiceWatcher) (e f : Text) (ws : WatcherStatus)
    → text_eq e f ≡ true
    → lookup f (insert e (status_at s.next_status) s.watcher_status) ≡ some ws
    → status_at s.next_status ≡ ws
new_status s e f ws same h =
    grind (arith, same, h, lookup-insert e f (status_at s.next_status) s.watcher_status)

head-Served :
    (s : ServiceWatcher) (e f : Text)
    → text_eq e f ≡ true
    → IsWatched s
    → Served
        (record { endpoint = e; status = s.next_status; cancelled = false } ∷ s.loops)
        f
        (s.next_status + 1)
        (status_at s.next_status)
unfolding any is_running is_cancelled is_loop
head-Served s e f same v = (
  ground (arith, same),
  ground (
    arith,
    same,
    any-is_cancelled-false f s.next_status s.loops (v.unused f s.next_status (omega arith)),
  ),
  omega arith,
)

tail-Served :
    (s : ServiceWatcher) (e f : Text) (ws : WatcherStatus)
    → text_eq e f ≡ false
    → Served s.loops f s.next_status ws
    → Served
        (record { endpoint = e; status = s.next_status; cancelled = false } ∷ s.loops)
        f
        (s.next_status + 1)
        ws
unfolding any is_running is_cancelled is_loop
tail-Served s e f ws other h =
    (ground (arith, other, h.0), ground (arith, other, h.1), omega (arith, h.2))

watch_endpoint-IsWatched :
    (s : ServiceWatcher) (e : Text) → IsWatched s → IsWatched (watch_endpoint s e)
unfolding watch_endpoint
watch_endpoint-IsWatched s e v = elim (Option-cases (lookup e s.watcher_status)) [
  | inr (ws, found) ↦ rw (watch_endpoint, found) v
  | inl new ↦
      rw (watch_endpoint, new)
        (record {
          watched = λ f h.
              ground (
                arith,
                v.watched f h,
                lookup-insert e f (status_at s.next_status) s.watcher_status,
              );
          served = λ f ws h. elim (Bool-cases (text_eq e f)) [
            | inl same ↦ rw (sym (new_status s e f ws same h)) (head-Served s e f same v)
            | inr other ↦ tail-Served s e f ws other (
                v.served f ws (
                  ground (
                    arith,
                    other,
                    h,
                    lookup-insert e f (status_at s.next_status) s.watcher_status,
                  )))
          ];
          unused = λ f n h.
              any-is_loop-head e f s.next_status n s.loops (v.unused f n (omega arith))
                (ground (arith, h));
        })
]

-- The appliers of an endpoint that has a status are replaced.
insert-Keeps :
    (s : ServiceWatcher) (e : Text) (m : Map Applier)
    → contains e s.watcher_status ≡ true
    → IsWatched s
    → Keeps s (record s { appliers = insert e m s.appliers })
insert-Keeps s e m there v = record {
  appliers =
      λ f h. ground (arith, there, text_eq_iff e f, v.watched f, lookup-insert e f m s.appliers);
  statuses = λ e ws h. (ws, h, refl);
  endpoints = λ e h. h;
  same_loops = refl;
  same_next = refl;
}

pub insert-IsWatched :
    (s : ServiceWatcher) (e : Text) (m : Map Applier)
    → contains e s.watcher_status ≡ true
    → IsWatched s
    → IsWatched (record s { appliers = insert e m s.appliers })
insert-IsWatched s e m there v =
    Keeps-IsWatched s (record s { appliers = insert e m s.appliers }) (insert-Keeps s e m there v) v

contains-watch_endpoint :
    (s : ServiceWatcher) (e : Text) → contains e (watch_endpoint s e).watcher_status ≡ true
unfolding watch_endpoint
contains-watch_endpoint s e = elim (Option-cases (lookup e s.watcher_status)) [
  | inr (ws, found) ↦ rw (watch_endpoint, found) (ap is_some found)
  | inl new ↦
      rw (watch_endpoint, new)
        (ground
          (arith, text_eq_refl e, lookup-insert e e (status_at s.next_status) s.watcher_status))
]

pub register-IsWatched :
    (s : ServiceWatcher) (e uuid : Text) (a : Option Applier)
    → IsWatched s
    → IsWatched (register s e uuid a)
unfolding register add_applier
register-IsWatched s e uuid none v = watch_endpoint-IsWatched s e v
register-IsWatched s e uuid (some a) v =
    insert-IsWatched (watch_endpoint s e) e (insert uuid a (appliers_of (watch_endpoint s e) e))
      (contains-watch_endpoint s e) (watch_endpoint-IsWatched s e v)

pub contains-appliers_of :
    (s : ServiceWatcher) (e uuid : Text) (a : Applier)
    → lookup uuid (appliers_of s e) ≡ some a
    → contains e s.appliers ≡ true
unfolding appliers_of lookup
contains-appliers_of s e uuid a h = elim (Option-cases (lookup e s.appliers)) [
  | inr (m, found) ↦ ap is_some found
  | inl missing ↦ absurd (ground (arith, missing, h))
]

pub replace-Keeps :
    (s : ServiceWatcher) (e : Text) (old new : WatcherStatus)
    → lookup e s.watcher_status ≡ some old
    → old.id ≡ new.id
    → IsWatched s
    → Keeps s (record s { watcher_status = insert e new s.watcher_status })
replace-Keeps s e old new found same v = record {
  appliers = v.watched;
  statuses = λ f ws h. elim (Bool-cases (text_eq e f)) [
    | inl here ↦ (
      old,
      ground (arith, here, found, text_eq_iff e f),
      grind (arith, here, h, same, lookup-insert e f new s.watcher_status),
    )
    | inr other ↦ (ws, ground (arith, other, h, lookup-insert e f new s.watcher_status), refl)
  ];
  endpoints = λ f h. ground (arith, h, lookup-insert e f new s.watcher_status);
  same_loops = refl;
  same_next = refl;
}
