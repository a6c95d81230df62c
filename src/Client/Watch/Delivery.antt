-- ===== src/Client/Watch/Delivery.antt =====
-- Who gets the lists of the registry, in client/servicewatch.go.
use ecommerce_gateway.Common.{
  ℕ, ◌≡◌, ◌∙◌, ap, refl, sym, arith, Bool, not, ◌&&◌, text_less, true, false, none, some, List, [],
  ◌∷◌, Text, text_eq_refl, Map, lookup, insert, lookup-insert, is_empty, Bool-cases, Option-cases,
  inl, inr,
}
use mathlib.Core.List.{Perm}
use mathlib.Core.List.Perm
use ecommerce_gateway.Client.Watch.{
  ServiceWatcher, WatcherStatus, Applier, ServiceInstance, callback, callback_all, do_callback,
  appliers_of, apply_services, insert_instance, sort_instances, set_selected_cache, with_status,
  is_current, get_selected_cache, register, deliver, with_applier, add_applier, watch_endpoint,
}

lookup-callback_all :
    (uuid : Text) (services : List ServiceInstance) (m : Map Applier) (a : Applier)
    → lookup uuid m ≡ some a
    → lookup uuid (callback_all services m) ≡ some (callback services a)
unfolding lookup callback_all
lookup-callback_all uuid services [] a h = ground (arith, h)
lookup-callback_all uuid services ((k, b) ∷ m) a h =
    grind (arith, h, lookup-callback_all uuid services m a)

-- The list is in the cache, and an applier has taken it, unless it is canceled.
abbrev pub Delivered : ServiceWatcher → ServiceWatcher → Text → List ServiceInstance → Type 0
Delivered s t e services =
    (get_selected_cache t e ≡ some services)
    × ((uuid : Text) (a : Applier)
        → lookup uuid (appliers_of s e) ≡ some a
        → lookup uuid (appliers_of t e) ≡ some (callback services a))

cache-do_callback :
    (s : ServiceWatcher) (e : Text) (services : List ServiceInstance)
    → get_selected_cache (do_callback s e services) e ≡ get_selected_cache s e
unfolding get_selected_cache do_callback
cache-do_callback s e services = elim (Option-cases (lookup e s.appliers)) [
  | inl missing ↦ rw (do_callback, missing) refl
  | inr (m, found) ↦ rw (do_callback, found) refl
]

lookup-same {ℓ} : {V : Type ℓ} (k : Text) (v : V) (m : Map V) → lookup k (insert k v m) ≡ some v
lookup-same k v m = rw (lookup-insert k k v m, text_eq_refl k) refl

pub appliers_of-insert :
    (s : ServiceWatcher) (e : Text) (m : Map Applier)
    → appliers_of (record s { appliers = insert e m s.appliers }) e ≡ m
unfolding appliers_of
appliers_of-insert s e m =
    ap (λ o. elim o [ none ↦ [] | some m' ↦ m' ]) (lookup-same e m s.appliers)

pub appliers_of-found :
    (s : ServiceWatcher) (e : Text) (m : Map Applier)
    → lookup e s.appliers ≡ some m
    → appliers_of s e ≡ m
unfolding appliers_of
appliers_of-found s e m found = ap (λ o. elim o [ none ↦ [] | some m' ↦ m' ]) found

no_applier :
    (s : ServiceWatcher) (e uuid : Text) (a : Applier)
    → lookup e s.appliers ≡ none
    → lookup uuid (appliers_of s e) ≡ some a
    → ⊥
unfolding appliers_of lookup
no_applier s e uuid a missing h = ground (arith, missing, h)

lookup-do_callback :
    (s : ServiceWatcher) (e uuid : Text) (services : List ServiceInstance) (a : Applier)
    → lookup uuid (appliers_of s e) ≡ some a
    → lookup uuid (appliers_of (do_callback s e services) e) ≡ some (callback services a)
unfolding do_callback
lookup-do_callback s e uuid services a h = elim (Option-cases (lookup e s.appliers)) [
  | inl missing ↦ absurd (no_applier s e uuid a missing h)
  | inr (m, found) ↦
      rw (do_callback, found)
        (ap (lookup uuid) (appliers_of-insert s e (callback_all services m))
          ∙ lookup-callback_all uuid services m a
              (sym (ap (lookup uuid) (appliers_of-found s e m found)) ∙ h))
]

cache-with_status :
    (s : ServiceWatcher) (e : Text) (status : ℕ) (services : List ServiceInstance)
    → is_current s e status ≡ true
    → get_selected_cache (with_status (λ ws. record ws { selected_instances = services }) s e) e
      ≡ some services
unfolding get_selected_cache with_status is_current
cache-with_status s e status services current = elim (Option-cases (lookup e s.watcher_status)) [
  | inl missing ↦ absurd (ground (arith, missing, current))
  | inr (ws, found) ↦
      rw (with_status, found)
        (rw
          (
            get_selected_cache,
            lookup-insert e e (record ws { selected_instances = services }) s.watcher_status,
            text_eq_refl e,
          )
          refl)
]

appliers-with_status :
    (f : WatcherStatus → WatcherStatus) (s : ServiceWatcher) (e : Text)
    → appliers_of (with_status f s e) e ≡ appliers_of s e
unfolding with_status appliers_of
appliers-with_status f s e = elim (Option-cases (lookup e s.watcher_status)) [
  | inl missing ↦ rw (with_status, missing) refl
  | inr (ws, found) ↦ rw (with_status, found) refl
]

insert_instance-Perm :
    (s : ServiceInstance) (services : List ServiceInstance)
    → Perm (insert_instance s services) (s ∷ services)
unfolding insert_instance
insert_instance-Perm s [] = Perm.refl (s ∷ [])
insert_instance-Perm s (t ∷ services) = elim (Bool-cases (text_less t.id s.id)) [
  | inl behind ↦
      rw behind
        (Perm.trans (Perm.cons t (insert_instance-Perm s services)) (Perm.swap s t services))
  | inr here ↦ rw here (Perm.refl (s ∷ t ∷ services))
]

sort_instances-Perm : (services : List ServiceInstance) → Perm (sort_instances services) services
unfolding sort_instances
sort_instances-Perm [] = Perm.refl []
sort_instances-Perm (s ∷ services) =
    Perm.trans (insert_instance-Perm s (sort_instances services))
      (Perm.cons s (sort_instances-Perm services))

-- No ID stands in front of the one before it.
abbrev pub is_sorted : List ServiceInstance → Bool
is_sorted [] = true
is_sorted (s ∷ []) = true
is_sorted (s ∷ t ∷ services) = not (text_less t.id s.id) && is_sorted (t ∷ services)

text_less-asym : (s t : Text) → text_less s t ≡ true → text_less t s ≡ false
unfolding text_less
text_less-asym s [] h = cc
text_less-asym [] (d ∷ t) h = refl
text_less-asym (c ∷ s) (d ∷ t) h = ground (arith, h, text_less-asym s t)

insert_instance-sorted :
    (s : ServiceInstance) (services : List ServiceInstance)
    → is_sorted services ≡ true
    → is_sorted (insert_instance s services) ≡ true
unfolding insert_instance
insert_instance-sorted s [] h = refl
insert_instance-sorted s (t ∷ []) h = ground (arith, text_less-asym t.id s.id)
insert_instance-sorted s (t ∷ u ∷ services) h =
    ground (arith, h, text_less-asym t.id s.id, insert_instance-sorted s (u ∷ services))

sort_instances-sorted :
    (services : List ServiceInstance) → is_sorted (sort_instances services) ≡ true
unfolding sort_instances
sort_instances-sorted [] = refl
sort_instances-sorted (s ∷ services) =
    insert_instance-sorted s (sort_instances services) (sort_instances-sorted services)

-- A list of the registry that is not empty and comes for the status that stands is sorted by the
-- IDs of its instances, put into the cache and given to every applier of the endpoint, when no other
-- operation comes in between. An empty list, or one that comes for another status, changes nothing.
pub apply_services_lem :
    (s : ServiceWatcher) (e : Text) (status : ℕ) (services : List ServiceInstance)
    → (is_empty services ≡ false
        → is_current s e status ≡ true
        → Delivered s (apply_services s e status services) e (sort_instances services)
          × Perm (sort_instances services) services
          × (is_sorted (sort_instances services) ≡ true))
      × (is_empty services ≡ true → apply_services s e status services ≡ s)
      × (is_current s e status ≡ false → apply_services s e status services ≡ s)
unfolding apply_services set_selected_cache
apply_services_lem s e status services = (
  λ full current.
      let sorted = sort_instances services in
      rw (full, current)
        (let cached = with_status (λ ws. record ws { selected_instances = sorted }) s e in
          (
            (
              cache-do_callback cached e sorted ∙ cache-with_status s e status sorted current,
              λ uuid a h. lookup-do_callback cached e uuid sorted a (
                  ap (lookup uuid)
                    (appliers-with_status (λ ws. record ws { selected_instances = sorted }) s e)
                  ∙ h),
            ),
            sort_instances-Perm services,
            sort_instances-sorted services,
          )),
  λ empty. rw empty refl,
  λ gone. elim (Bool-cases (is_empty services)) [
    | inl empty ↦ rw empty refl
    | inr full ↦ rw (full, gone) refl
  ],
)

insert_instance-full :
    (s : ServiceInstance) (services : List ServiceInstance)
    → is_empty (insert_instance s services) ≡ false
unfolding insert_instance
insert_instance-full s [] = refl
insert_instance-full s (t ∷ services) = ground arith

sort_instances-full :
    (services : List ServiceInstance)
    → is_empty services ≡ false
    → is_empty (sort_instances services) ≡ false
unfolding sort_instances
sort_instances-full [] h = h
sort_instances-full (s ∷ services) h = insert_instance-full s (sort_instances services)

register-existing :
    (s : ServiceWatcher) (e uuid : Text) (old : List ServiceInstance) (a : Applier)
    → get_selected_cache s e ≡ some old
    → register s e uuid (some a)
      ≡ record s { appliers = insert e (insert uuid a (appliers_of s e)) s.appliers }
unfolding register add_applier watch_endpoint get_selected_cache
register-existing s e uuid old a cached = elim (Option-cases (lookup e s.watcher_status)) [
  | inl missing ↦ absurd (ground (arith, missing, cached))
  | inr (ws, found) ↦ rw (watch_endpoint, found) refl
]

deliver-found :
    (s : ServiceWatcher) (e uuid : Text) (services : List ServiceInstance) (a : Applier)
    → lookup uuid (appliers_of s e) ≡ some a
    → (lookup uuid (appliers_of (deliver s e uuid services) e) ≡ some (callback services a))
      × (get_selected_cache (deliver s e uuid services) e ≡ get_selected_cache s e)
unfolding deliver with_applier get_selected_cache
deliver-found s e uuid services a found =
    rw (with_applier, found)
      (
        ap (lookup uuid)
              (appliers_of-insert s e (insert uuid (callback services a) (appliers_of s e)))
            ∙ lookup-same uuid (callback services a) (appliers_of s e),
        refl,
      )

callback-taken :
    (services : List ServiceInstance) (a : Applier)
    → a.canceled ≡ false
    → is_empty services ≡ false
    → callback services a ≡ record a { received = services ∷ a.received }
unfolding callback
callback-taken services a live full = rw (live, full) refl

callback-twice :
    (old services : List ServiceInstance) (a : Applier)
    → a.canceled ≡ false
    → is_empty old ≡ false
    → is_empty services ≡ false
    → callback old (callback services a) ≡ record a { received = old ∷ services ∷ a.received }
callback-twice old services a live full_old full =
    ap (callback old) (callback-taken services a live full)
    ∙ callback-taken old (record a { received = services ∷ a.received }) live full_old

-- When a new list comes between the moment at which Add reads the cache and the moment at which it
-- calls the new applier, the applier is left with the old list, while the cache has the new one,
-- sorted by ID.
pub late_delivery :
    (s : ServiceWatcher) (e uuid : Text) (status : ℕ) (old services : List ServiceInstance)
    (a : Applier)
    → a.canceled ≡ false
    → is_empty old ≡ false
    → is_empty services ≡ false
    → is_current s e status ≡ true
    → get_selected_cache s e ≡ some old
    → let t = deliver (apply_services (register s e uuid (some a)) e status services) e uuid old in
      let sorted = sort_instances services in
      (lookup uuid (appliers_of t e) ≡ some (record a { received = old ∷ sorted ∷ a.received }))
      × (get_selected_cache t e ≡ some sorted)
unfolding is_current get_selected_cache
late_delivery s e uuid status old services a live full_old full current cached =
    let s1 = record s { appliers = insert e (insert uuid a (appliers_of s e)) s.appliers } in
    let sorted = sort_instances services in
    let h1 =
      ap (lookup uuid) (appliers_of-insert s e (insert uuid a (appliers_of s e)))
      ∙ lookup-same uuid a (appliers_of s e) in
    let pushed = (apply_services_lem s1 e status services).0 full current in
    let late =
      deliver-found (apply_services s1 e status services) e uuid old (callback sorted a)
        (pushed.0.1 uuid a h1) in
    rw (register-existing s e uuid old a cached) (
      late.0
          ∙ ap some (callback-twice old sorted a live full_old (sort_instances-full services full)),
      late.1 ∙ pushed.0.0,
    )
