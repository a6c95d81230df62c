-- ===== src/Client/Watch.antt =====
-- client/servicewatch.go: which services are watched, for which appliers. A status is named by a
-- number, since the code compares the pointers, and a loop by the endpoint and its status. Each
-- section that holds the lock of the watcher is a step, and a history is a sequence of steps.
mod Loops
mod Invariant
mod History
mod Delivery
mod Cleanup
mod Delay
mod Tests
use ecommerce_gateway.Common.{
  ℕ, ◌+◌, Bool, true, false, not, ◌&&◌, ◌||◌, Option, none, some, List, [], ◌∷◌, Text, text_eq, Map,
  text_less, lookup, lookup_or, insert, delete, is_empty, is_some, select, map, any, if◌then◌else◌,
  ◌==◌, ◌≡◌,
}

-- registry.ServiceInstance of kratos.
pub record ServiceInstance : Type 0 where
  pub id : Text
  pub name : Text
  pub version : Text
  pub metadata : Map Text
  pub endpoints : List Text

-- An applier as the watcher sees it: whether it is canceled, and the lists it took, latest first.
pub record Applier : Type 0 where
  pub canceled : Bool
  pub received : List (List ServiceInstance)

pub record WatcherStatus : Type 0 where
  pub id : ℕ
  pub watching : Bool
  pub selected_instances : List ServiceInstance

-- A goroutine of watchLoop, and whether the context of its status is canceled.
pub record WatchLoop : Type 0 where
  pub endpoint : Text
  pub status : ℕ
  pub cancelled : Bool

pub record ServiceWatcher : Type 0 where
  pub watcher_status : Map WatcherStatus
  pub appliers : Map (Map Applier)
  pub loops : List WatchLoop
  pub next_status : ℕ

pub new_service_watcher : ServiceWatcher
new_service_watcher = record { watcher_status = []; appliers = []; loops = []; next_status = 0 }

pub appliers_of : ServiceWatcher → Text → Map Applier
appliers_of s e = lookup_or e [] s.appliers

-- nodeApplier.Callback: a canceled applier answers ErrCancelWatch, an empty list is ignored.
unfoldable pub callback : List ServiceInstance → Applier → Applier
callback services a =
    if a.canceled || is_empty services then a else record a { received = services ∷ a.received }

callback_all : List ServiceInstance → Map Applier → Map Applier
callback_all services [] = []
callback_all services ((uuid, a) ∷ m) = (uuid, callback services a) ∷ callback_all services m

pub do_callback : ServiceWatcher → Text → List ServiceInstance → ServiceWatcher
unfolding callback_all
do_callback s e services = elim (lookup e s.appliers) [
  | none ↦ s
  | some m ↦ record s { appliers = insert e (callback_all services m) s.appliers }
]

-- Whether the status is the one that stands for the endpoint.
pub is_current : ServiceWatcher → Text → ℕ → Bool
is_current s e status = elim (lookup e s.watcher_status) [
  | none ↦ false
  | some ws ↦ ws.id == status
]

with_status : (WatcherStatus → WatcherStatus) → ServiceWatcher → Text → ServiceWatcher
with_status f s e = elim (lookup e s.watcher_status) [
  | none ↦ s
  | some ws ↦ record s { watcher_status = insert e (f ws) s.watcher_status }
]

-- setSelectedCache, with its answer.
pub set_selected_cache : ServiceWatcher → Text → ℕ → List ServiceInstance → ServiceWatcher × Bool
unfolding is_current with_status
set_selected_cache s e status services =
    if is_current s e status
    then (with_status (λ ws. record ws { selected_instances = services }) s e, true)
    else (s, false)

-- The sorting of instancesSetHash, by ID. For IDs that are the same it is one of the orders that
-- sort.Slice may leave.
unfoldable pub insert_instance : ServiceInstance → List ServiceInstance → List ServiceInstance
unfolding text_less
insert_instance s [] = s ∷ []
insert_instance s (t ∷ services) =
    let rest = insert_instance s services in
    if text_less t.id s.id then t ∷ rest else s ∷ t ∷ services

unfoldable pub sort_instances : List ServiceInstance → List ServiceInstance
unfolding insert_instance
sort_instances [] = []
sort_instances (s ∷ services) = insert_instance s (sort_instances services)

-- applyServices without another operation in between: setSelectedCache and doCallback take the lock
-- one after the other. The list has been sorted in place by then.
pub apply_services : ServiceWatcher → Text → ℕ → List ServiceInstance → ServiceWatcher
unfolding set_selected_cache do_callback sort_instances
apply_services s e status services =
    if is_empty services
    then s
    else if (set_selected_cache s e status (sort_instances services)).1
    then do_callback (set_selected_cache s e status (sort_instances services)).0 e
        (sort_instances services)
    else s

-- The part of Add under the lock: a status and a loop for an endpoint that has none, and the
-- applier under a new key.
watch_endpoint : ServiceWatcher → Text → ServiceWatcher
watch_endpoint s e = elim (lookup e s.watcher_status) [
  | some ws ↦ s
  | none ↦ record s {
    watcher_status =
        insert e (record { id = s.next_status; watching = false; selected_instances = [] })
          s.watcher_status;
    loops = record { endpoint = e; status = s.next_status; cancelled = false } ∷ s.loops;
    next_status = s.next_status + 1;
  }
]

add_applier : ServiceWatcher → Text → Text → Option Applier → ServiceWatcher
unfolding appliers_of
add_applier s e uuid none = s
add_applier s e uuid (some a) = record s {
  appliers = insert e (insert uuid a (appliers_of s e)) s.appliers;
}

pub register : ServiceWatcher → Text → Text → Option Applier → ServiceWatcher
unfolding watch_endpoint add_applier
register s e uuid a = add_applier (watch_endpoint s e) e uuid a

-- ws.selectedInstances as Add reads it, nothing for a new endpoint.
pub get_selected_cache : ServiceWatcher → Text → Option (List ServiceInstance)
get_selected_cache s e = elim (lookup e s.watcher_status) [
  | none ↦ none
  | some ws ↦ some ws.selected_instances
]

with_applier : (Applier → Applier) → ServiceWatcher → Text → Text → ServiceWatcher
unfolding appliers_of
with_applier f s e uuid = elim (lookup uuid (appliers_of s e)) [
  | none ↦ s
  | some a ↦ record s { appliers = insert e (insert uuid (f a) (appliers_of s e)) s.appliers }
]

-- The callback of Add behind the lock, with the instances that were read under it.
pub deliver : ServiceWatcher → Text → Text → List ServiceInstance → ServiceWatcher
unfolding with_applier
deliver s e uuid services = with_applier (callback services) s e uuid

-- Add without another operation in between; the answer says whether the endpoint was watched.
pub add : ServiceWatcher → Text → Text → Option Applier → ServiceWatcher × Bool
unfolding register deliver get_selected_cache
add s e uuid a = elim (get_selected_cache s e) [
  | none ↦ (register s e uuid a, false)
  | some cached ↦ (
    if is_empty cached then register s e uuid a else deliver (register s e uuid a) e uuid cached,
    true,
  )
]

-- Cancel of an applier.
pub cancel : ServiceWatcher → Text → Text → ServiceWatcher
unfolding with_applier
cancel s e uuid = with_applier (λ a. record a { canceled = true }) s e uuid

-- The two locked parts of the cleanup: the keys of the canceled appliers, and their removal.
canceled_keys : Map Applier → List Text
canceled_keys [] = []
canceled_keys ((uuid, a) ∷ m) =
    let rest = canceled_keys m in if a.canceled then uuid ∷ rest else rest

delete_all : List Text → Map Applier → Map Applier
delete_all [] m = m
delete_all (uuid ∷ uuids) m = delete_all uuids (delete uuid m)

pub remove_appliers : ServiceWatcher → Text → List Text → ServiceWatcher
unfolding delete_all
remove_appliers s e uuids = elim (lookup e s.appliers) [
  | none ↦ s
  | some m ↦ record s { appliers = insert e (delete_all uuids m) s.appliers }
]

pub is_loop : Text → ℕ → WatchLoop → Bool
is_loop e status l = text_eq l.endpoint e && (l.status == status)

pub cancel_loop : Text → ℕ → WatchLoop → WatchLoop
unfolding is_loop
cancel_loop e status l = if is_loop e status l then record l { cancelled = true } else l

cancel_of : Option WatcherStatus → Text → List WatchLoop → List WatchLoop
unfolding cancel_loop
cancel_of none e loops = loops
cancel_of (some ws) e loops = map (cancel_loop e ws.id) loops

pub stop_watcher_if_unused : ServiceWatcher → Text → ServiceWatcher
unfolding appliers_of cancel_of
stop_watcher_if_unused s e = if not (is_empty (appliers_of s e)) then s else record s {
  appliers = delete e s.appliers;
  watcher_status = delete e s.watcher_status;
  loops = cancel_of (lookup e s.watcher_status) e s.loops;
}

-- One endpoint of doCleanup.
pub clean_endpoint : ServiceWatcher → Text → ServiceWatcher
unfolding appliers_of canceled_keys remove_appliers stop_watcher_if_unused
clean_endpoint s e =
    if is_empty (canceled_keys (appliers_of s e))
    then s
    else stop_watcher_if_unused (remove_appliers s e (canceled_keys (appliers_of s e))) e

pub leave : ServiceWatcher → Text → ℕ → ServiceWatcher
unfolding is_loop select
leave s e status = record s { loops = select (λ l. not (is_loop e status l)) s.loops }

pub remove_watcher : ServiceWatcher → Text → ℕ → ServiceWatcher
unfolding is_current
remove_watcher s e status =
    if is_current s e status then record s { watcher_status = delete e s.watcher_status } else s

-- A loop got its watcher from the registry: setWatcher, and the return if it refuses.
pub watch_created : ServiceWatcher → Text → ℕ → ServiceWatcher
unfolding is_current with_status leave
watch_created s e status =
    if is_current s e status
    then with_status (λ ws. record ws { watching = true }) s e
    else leave s e status

-- A loop returns behind removeWatcher.
pub loop_exit : ServiceWatcher → Text → ℕ → ServiceWatcher
unfolding remove_watcher leave
loop_exit s e status = leave (remove_watcher s e status) e status

-- The context of the loop's status is done.
pub is_cancelled : Text → ℕ → WatchLoop → Bool
unfolding is_loop
is_cancelled e status l = is_loop e status l && l.cancelled

pub is_running : Text → ℕ → WatchLoop → Bool
unfolding is_loop
is_running e status l = is_loop e status l && not l.cancelled

-- What may happen next. A loop exits when its context is done; the instances that Add delivers may
-- have been read at any time before, and those that doCallback gives may have been cached at any
-- time before.
pub data Step : ServiceWatcher → ServiceWatcher → Type 0 where
  registers :
      (s : ServiceWatcher) (e uuid : Text) (a : Option Applier) → Step s (register s e uuid a)
  delivers :
      (s : ServiceWatcher) (e uuid : Text) (services : List ServiceInstance)
      → Step s (deliver s e uuid services)
  caches :
      (s : ServiceWatcher) (e : Text) (status : ℕ) (services : List ServiceInstance)
      → Step s (set_selected_cache s e status services).0
  calls :
      (s : ServiceWatcher) (e : Text) (services : List ServiceInstance)
      → Step s (do_callback s e services)
  creates : (s : ServiceWatcher) (e : Text) (status : ℕ) → Step s (watch_created s e status)
  cancels : (s : ServiceWatcher) (e uuid : Text) → Step s (cancel s e uuid)
  removes : (s : ServiceWatcher) (e : Text) (uuids : List Text) → Step s (remove_appliers s e uuids)
  stops : (s : ServiceWatcher) (e : Text) → Step s (stop_watcher_if_unused s e)
  exits :
      (s : ServiceWatcher) (e : Text) (status : ℕ)
      → any (is_cancelled e status) s.loops ≡ true
      → Step s (loop_exit s e status)

pub data Reach : ServiceWatcher → Type 0 where
  start : Reach new_service_watcher
  next : {s t : ServiceWatcher} → Reach s → Step s t → Reach t
