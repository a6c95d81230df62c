-- ===== src/Middleware/Rbac/Roles/Laws.antt =====
-- How long the cache of middleware/rbac/rbac.go keeps an item.
use ecommerce_gateway.Common.{
  ℕ, ◌+◌, ◌≤◌, ◌≡◌, refl, arith, none, some, [], ◌∷◌, Text, leb, text_eq, text_eq_iff, lookup,
  lookup-insert, Unique, if◌then◌else◌,
}
use ecommerce_gateway.Middleware.Rbac.Roles.{
  Cache, unexpired, get_item, lifetime, set_item, cleanup,
}

-- An item that is set is found for five minutes, and the other ones as before.
get_item-set_item :
    (now later : ℕ) (key other value : Text) (c : Cache)
    → get_item later other (set_item now key value c) ≡ (
        if text_eq key other
        then if leb later (now + lifetime) then some value else none
        else get_item later other c)
unfolding get_item set_item unexpired
get_item-set_item now later key other value c =
    ground
      (arith, lookup-insert key other (record { value = value; expiration = now + lifetime }) c)

lookup-cleanup-none :
    (now : ℕ) (key : Text) (c : Cache) → lookup key c ≡ none → lookup key (cleanup now c) ≡ none
unfolding lookup cleanup
lookup-cleanup-none now key [] h = refl
lookup-cleanup-none now key ((k, item) ∷ c) h = ground (arith, lookup-cleanup-none now key c)

-- A cleanup takes away nothing that would be found later.
get_item-cleanup :
    (now later : ℕ) (key : Text) (c : Cache)
    → Unique c
    → now ≤ later
    → get_item later key (cleanup now c) ≡ get_item later key c
unfolding get_item cleanup unexpired lookup
get_item-cleanup now later key [] u h = refl
get_item-cleanup now later key ((k, item) ∷ c) u h = ground (
  arith,
  text_eq_iff k key,
  lookup-cleanup-none now key c,
  get_item-cleanup now later key c u.1 h,
)
