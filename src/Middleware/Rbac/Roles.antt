-- ===== src/Middleware/Rbac/Roles.antt =====
-- The cache of roles in middleware/rbac/rbac.go.
mod Laws
use ecommerce_gateway.Common.{
  ℕ, ◌+◌, ◌*◌, Bool, true, false, not, Option, none, some, List, [], ◌∷◌, Text, ltb, Map, lookup,
  insert, if◌then◌else◌,
}

-- Times are nanoseconds; the values are the names of roles.
pub record CacheItem : Type 0 where
  pub value : Text
  pub expiration : ℕ

abbrev pub Cache : Type 0
Cache = Map CacheItem

abbrev pub is_expired : ℕ → CacheItem → Bool
is_expired now item = ltb item.expiration now

unfoldable pub unexpired : ℕ → Option CacheItem → Option Text
unexpired now none = none
unexpired now (some item) = if is_expired now item then none else some item.value

-- Cache.Get
unfoldable pub get_item : (now : ℕ) → Text → Cache → Option Text
unfolding lookup unexpired
get_item now key c = unexpired now (lookup key c)

-- Five minutes.
abbrev pub lifetime : ℕ
lifetime = 300 * 1000000000

-- Cache.Set
unfoldable pub set_item : (now : ℕ) → (key value : Text) → Cache → Cache
unfolding insert
set_item now key value c = insert key (record { value = value; expiration = now + lifetime }) c

-- Cache.cleanup
unfoldable pub cleanup : (now : ℕ) → Cache → Cache
cleanup now [] = []
cleanup now ((key, item) ∷ c) =
    let rest = cleanup now c in if is_expired now item then rest else (key, item) ∷ rest
