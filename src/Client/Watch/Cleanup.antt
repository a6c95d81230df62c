-- ===== src/Client/Watch/Cleanup.antt =====
-- The cleanup of appliers in client/servicewatch.go.
use ecommerce_gateway.Common.{
  ◌≡◌, ◌∙◌, ap, refl, sym, arith, false, none, some, List, [], ◌∷◌, Text, text_eq, text_eq_iff, Map,
  lookup, delete, lookup-delete, is_empty, Unique, All, Bool-cases, Option-cases, inl, inr,
}
use ecommerce_gateway.Client.Watch.{
  ServiceWatcher, Applier, appliers_of, canceled_keys, delete_all, remove_appliers,
  stop_watcher_if_unused, clean_endpoint,
}
use ecommerce_gateway.Client.Watch.Delivery.{appliers_of-insert, appliers_of-found}

canceled_keys-missing :
    (uuid : Text) (m : Map Applier)
    → lookup uuid m ≡ none
    → All (λ k. text_eq k uuid ≡ false) (canceled_keys m)
unfolding canceled_keys lookup
canceled_keys-missing uuid [] h = tt
canceled_keys-missing uuid ((k, b) ∷ m) h = ground (arith, h, canceled_keys-missing uuid m)

canceled_keys-live :
    (uuid : Text) (a : Applier) (m : Map Applier)
    → Unique m
    → lookup uuid m ≡ some a
    → a.canceled ≡ false
    → All (λ k. text_eq k uuid ≡ false) (canceled_keys m)
unfolding canceled_keys lookup
canceled_keys-live uuid a [] u h live = tt
canceled_keys-live uuid a ((k, b) ∷ m) u h live = elim (Bool-cases (text_eq k uuid)) [
  | inl same ↦ grind (arith, same, h, live, u.0, text_eq_iff k uuid, canceled_keys-missing uuid m)
  | inr other ↦ ground (arith, other, h, live, canceled_keys-live uuid a m u.1)
]

lookup-delete_all :
    (uuid : Text) (uuids : List Text) (m : Map Applier)
    → All (λ k. text_eq k uuid ≡ false) uuids
    → lookup uuid (delete_all uuids m) ≡ lookup uuid m
unfolding delete_all
lookup-delete_all uuid [] m h = refl
lookup-delete_all uuid (k ∷ uuids) m h =
    lookup-delete_all uuid uuids (delete k m) h.1 ∙ lookup-delete k uuid m ∙ rw h.0 refl

lookup-remove_appliers :
    (s : ServiceWatcher) (e uuid : Text) (uuids : List Text)
    → All (λ k. text_eq k uuid ≡ false) uuids
    → lookup uuid (appliers_of (remove_appliers s e uuids) e) ≡ lookup uuid (appliers_of s e)
unfolding remove_appliers
lookup-remove_appliers s e uuid uuids h = elim (Option-cases (lookup e s.appliers)) [
  | inl missing ↦ rw (remove_appliers, missing) refl
  | inr (m, found) ↦
      rw (remove_appliers, found)
        (ap (lookup uuid) (appliers_of-insert s e (delete_all uuids m))
          ∙ lookup-delete_all uuid uuids m h
          ∙ sym (ap (lookup uuid) (appliers_of-found s e m found)))
]

is_empty-lookup :
    (uuid : Text) (a : Applier) (m : Map Applier) → lookup uuid m ≡ some a → is_empty m ≡ false
unfolding lookup
is_empty-lookup uuid a [] h = ground (arith, h)
is_empty-lookup uuid a (x ∷ m) h = refl

stop-used :
    (s : ServiceWatcher) (e uuid : Text) (a : Applier)
    → lookup uuid (appliers_of s e) ≡ some a
    → stop_watcher_if_unused s e ≡ s
unfolding stop_watcher_if_unused
stop-used s e uuid a h = rw (is_empty-lookup uuid a (appliers_of s e) h) refl

-- The cleanup of an endpoint, whose appliers have different keys, keeps every applier that is not
-- canceled.
pub clean_endpoint-live :
    (s : ServiceWatcher) (e uuid : Text) (a : Applier)
    → Unique (appliers_of s e)
    → lookup uuid (appliers_of s e) ≡ some a
    → a.canceled ≡ false
    → lookup uuid (appliers_of (clean_endpoint s e) e) ≡ some a
unfolding clean_endpoint
clean_endpoint-live s e uuid a u h live =
    let keys = canceled_keys (appliers_of s e) in
    let kept =
      lookup-remove_appliers s e uuid keys (canceled_keys-live uuid a (appliers_of s e) u h live)
      ∙ h in
    elim (Bool-cases (is_empty keys)) [
      | inl clean ↦ rw clean h
      | inr dirty ↦ rw dirty (
          ap (λ t. lookup uuid (appliers_of t e))
            (stop-used (remove_appliers s e keys) e uuid a kept)
          ∙ kept)
    ]
