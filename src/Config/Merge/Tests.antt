-- ===== src/Config/Merge/Tests.antt =====
-- The merging of priority endpoints at concrete endpoints.
use ecommerce_gateway.Common.{◌≡◌, refl, none, [], ◌∷◌, Text, bytes, lookup, insert, text_eq, all}
use ecommerce_gateway.Client.Node.{http}
use ecommerce_gateway.Config.Types.{Endpoint}
use ecommerce_gateway.Config.Merge.{
  key_of, index_of, merge_priority, keys_of, merge_priority-known, merge_priority-shifted,
}

abbrev at_path : Text → Text → Endpoint
at_path path host = record {
  path = path;
  method = bytes "GET";
  protocol = http;
  timeout = none;
  middlewares = [];
  backends = [];
  retry = none;
  metadata = [];
  host = host;
}

abbrev goods : Endpoint
goods = at_path (bytes "/goods") (bytes "a")

abbrev orders : Endpoint
orders = at_path (bytes "/orders") (bytes "a")

abbrev new_goods : Endpoint
new_goods = at_path (bytes "/goods") (bytes "b")

abbrev carts : Endpoint
carts = at_path (bytes "/carts") (bytes "b")

replaced : merge_priority (goods ∷ orders ∷ []) (new_goods ∷ []) ≡ new_goods ∷ orders ∷ []
unfolding merge_priority lookup index_of insert text_eq key_of
replaced = refl

merge_priority-known_example :
    keys_of (merge_priority (goods ∷ orders ∷ []) (new_goods ∷ [])) ≡ keys_of (goods ∷ orders ∷ [])
unfolding all lookup index_of insert text_eq key_of
merge_priority-known_example = merge_priority-known (goods ∷ orders ∷ []) (new_goods ∷ []) refl

-- The new endpoint is gone, and both versions of the other stand in the list.
merge_priority-shifted_example :
    merge_priority (goods ∷ orders ∷ []) (carts ∷ new_goods ∷ []) ≡ new_goods ∷ goods ∷ orders ∷ []
unfolding lookup index_of insert text_eq key_of
merge_priority-shifted_example =
    merge_priority-shifted (goods ∷ orders ∷ []) carts new_goods 0 refl refl
