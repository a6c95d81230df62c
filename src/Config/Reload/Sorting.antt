-- ===== src/Config/Reload/Sorting.antt =====
-- Sorting the keys of a map changes neither its values nor that its keys are different.
use ecommerce_gateway.Common.{
  ◌≡◌, ◌∙◌, ap, refl, arith, none, some, [], ◌∷◌, Text, text_eq, text_eq_iff, Map, lookup, Unique,
  if◌then◌else◌,
}
use ecommerce_gateway.Config.Reload.{insert_sorted, sort_keys}

lookup-insert_sorted :
    (k v : Text) (m : Map Text) (j : Text)
    → lookup k m ≡ none
    → lookup j (insert_sorted k v m) ≡ (if text_eq k j then some v else lookup j m)
unfolding lookup insert_sorted
lookup-insert_sorted k v [] j h = refl
lookup-insert_sorted k v ((i, w) ∷ m) j h =
    ground
      (arith, h, text_eq_iff i k, text_eq_iff i j, text_eq_iff k j, lookup-insert_sorted k v m j)

insert_sorted-Unique :
    (k v : Text) (m : Map Text) → lookup k m ≡ none → Unique m → Unique (insert_sorted k v m)
unfolding lookup insert_sorted
insert_sorted-Unique k v [] h u = (refl, tt)
insert_sorted-Unique k v ((i, w) ∷ m) h u = ground (
  arith,
  h,
  text_eq_iff i k,
  text_eq_iff k i,
  lookup-insert_sorted k v m i,
  insert_sorted-Unique k v m,
  u,
)

pub lookup-sort_keys : (m : Map Text) (j : Text) → Unique m → lookup j (sort_keys m) ≡ lookup j m
unfolding sort_keys lookup
lookup-sort_keys [] j u = refl
lookup-sort_keys ((k, v) ∷ m) j u =
    lookup-insert_sorted k v (sort_keys m) j (lookup-sort_keys m k u.1 ∙ u.0)
    ∙ ap (λ o. if text_eq k j then some v else o) (lookup-sort_keys m j u.1)

pub sort_keys-Unique : (m : Map Text) → Unique m → Unique (sort_keys m)
unfolding sort_keys
sort_keys-Unique [] u = tt
sort_keys-Unique ((k, v) ∷ m) u =
    insert_sorted-Unique k v (sort_keys m) (lookup-sort_keys m k u.1 ∙ u.0) (sort_keys-Unique m u.1)
