-- ===== src/Client/Factory/Tests.antt =====
-- Targets and lists of instances on examples: client/factory.go and client/target.go.
use ecommerce_gateway.Common.{
  ◌≡◌, refl, pos, false, none, some, [], ◌∷◌, Text, bytes, text_eq, to_lower, List, All,
  if◌then◌else◌,
}
use ecommerce_gateway.Client.Node.{Protocol, protocol_name}
use ecommerce_gateway.Client.Health.{new_health_checker}
use ecommerce_gateway.Client.Watch.{ServiceInstance}
use ecommerce_gateway.Http.{Url, Parse}
use ecommerce_gateway.Client.Factory.{
  NodeApplier, node_callback, apply_backends, node_weight, address_of,
}
use ecommerce_gateway.Client.Factory.Laws.{
  IsUsableNode, IsGiven, with_backends, Tracks, node_callback_lem, node_callback-replaces,
}

abbrev web_url : Url
web_url = record {
  scheme = bytes "http";
  host = bytes "10.0.0.1:8000";
  path = [];
  is_secure_value = [];
}

abbrev direct_url : Url
direct_url = record {
  scheme = bytes "direct";
  host = [];
  path = bytes "/10.0.0.9:80";
  is_secure_value = [];
}

unfoldable parse : Parse
unfolding text_eq
parse s =
    if text_eq s (bytes "http://10.0.0.1:8000")
    then some web_url
    else if text_eq s (bytes "direct:///10.0.0.9:80")
    then some direct_url
    else none

abbrev instance_with : Text → ServiceInstance
instance_with weight = record {
  id = bytes "i1";
  name = bytes "orders";
  version = bytes "v1";
  metadata = (bytes "weight", weight) ∷ [];
  endpoints = bytes "http://10.0.0.1:8000" ∷ [];
}

weight : node_weight (instance_with (bytes "30")) ≡ pos 30
unfolding node_weight text_eq
weight = refl

bad_weight : node_weight (instance_with (bytes "-3")) ≡ pos 10
unfolding node_weight text_eq
bad_weight = refl

saturated : node_weight (instance_with (bytes "99999999999999999999")) ≡ pos 9223372036854775807
unfolding node_weight text_eq
saturated = refl

grpc_fallback :
    address_of parse (bytes "grpc") (bytes "http://10.0.0.1:8000" ∷ [])
    ≡ some (bytes "10.0.0.1:8000")
unfolding address_of parse
grpc_fallback = refl

no_address : address_of parse (bytes "http") [] ≡ none
unfolding address_of
no_address = refl

abbrev applier : NodeApplier
applier = record {
  canceled = false;
  protocol = Protocol.grpc;
  backends = record { target = bytes "10.0.0.9:80"; weight = some (pos 5) } ∷ [];
  picker = [];
  health_checker = some (new_health_checker [] (pos 10) (pos 2) (pos 3));
  watched = [];
}

abbrev one : List ServiceInstance
one = instance_with [] ∷ []

node_callback_lem_example :
    ((node_callback parse one applier).0 ≡ none)
    × IsGiven parse
        (to_lower (protocol_name Protocol.grpc))
        one
        (node_callback parse one applier).1.picker
    × All (IsUsableNode Protocol.grpc) (node_callback parse one applier).1.picker
    × Tracks applier.health_checker
        (node_callback parse one applier).1.health_checker
        (node_callback parse one applier).1.picker
node_callback_lem_example = node_callback_lem parse one applier refl refl

abbrev with_direct : NodeApplier
with_direct =
    with_backends applier.backends [] (apply_backends parse (λ e. []) applier).1.picker applier

node_callback-replaces_example :
    ((node_callback parse one with_direct).1.picker ≡ (node_callback parse one applier).1.picker)
    × ((node_callback parse one with_direct).1.health_checker
        ≡ (node_callback parse one applier).1.health_checker)
node_callback-replaces_example =
    node_callback-replaces parse one applier applier.backends []
      (apply_backends parse (λ e. []) applier).1.picker refl refl
