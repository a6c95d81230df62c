-- ===== src/Client/Factory.antt =====
-- client/factory.go: how an endpoint comes to its nodes, from its configuration and from the lists
-- that the registry sends.
pub mod Laws
pub mod Build
mod Tests
use ecommerce_gateway.Common.{
  ℕ, ◌+◌, ◌-◌, ◌*◌, ℤ, pos, negsuc, Bool, true, false, not, ◌&&◌, ◌||◌, ◌==◌, leb, zero, suc,
  Option, none, some, ◌⊎◌, inl, inr, List, [], ◌∷◌, ◌++◌, Text, bytes, text_eq, is_digit, to_lower,
  reverse, itoa, split_host_port, lookup, Map, is_empty, if◌then◌else◌,
}
use ecommerce_gateway.Config.Types.{Backend, Endpoint}
use ecommerce_gateway.Client.Node.{Node, Protocol, protocol_name, new_node}
use ecommerce_gateway.Client.Health.{HealthChecker, update_nodes}
use ecommerce_gateway.Client.Watch.{ServiceInstance}
use ecommerce_gateway.Http.{Url, Parse}
use ecommerce_gateway.Client.Target.{Target, parse_target, parse_endpoint}

-- A numeral's value, when it has only digits.
unfoldable pub digits_of : ℕ → Text → Option ℕ
digits_of v [] = some v
digits_of v (c ∷ s) =
    let more = digits_of (v * 10 + (c - b'0')) s in if is_digit c then more else none

unfoldable pub magnitude : Text → Option ℕ
unfolding digits_of
magnitude [] = none
magnitude (c ∷ s) = digits_of 0 (c ∷ s)

abbrev pub max_int_64 : ℕ
max_int_64 = 9223372036854775807

-- The value that strconv.ParseInt in 64 bits returns for a positive number, whatever its error: 0
-- for a syntax error, and the nearest value for one that is out of range. What is not positive is
-- 0 here.
unfoldable pub positive_value : Text → ℕ
unfolding magnitude
positive_value s =
    let digits = if text_eq (bytes "+") (first_byte s) then drop_first s else s in
    elim (magnitude digits) [ none ↦ 0 | some n ↦ if leb n max_int_64 then n else max_int_64 ]
  where
    first_byte : Text → Text
    first_byte [] = []
    first_byte (c ∷ t) = c ∷ []

    drop_first : Text → Text
    drop_first [] = []
    drop_first (c ∷ t) = t

-- nodeWeight
unfoldable pub node_weight : ServiceInstance → ℤ
unfolding lookup positive_value
node_weight n = elim (lookup (bytes "weight") n.metadata) [
  | none ↦ pos 10
  | some w ↦ if leb (positive_value w) 0 then pos 10 else pos (positive_value w)
]

-- The text behind the last colon: the port of a host that net.SplitHostPort accepts.
unfoldable pub after_colon : Text → Text → Text
after_colon cur [] = reverse cur
after_colon cur (c ∷ s) = after_colon (if c == b':' then [] else c ∷ cur) s

-- The port of one endpoint, where there is one: strconv.Atoi, which takes a sign.
unfoldable pub port_of : Option Url → Option ℤ
unfolding split_host_port after_colon magnitude
port_of none = none
port_of (some u) = elim (split_host_port u.host) [
  | none ↦ none
  | some host ↦ atoi (after_colon [] u.host)
]
  where
    natural : Option ℕ → Option ℤ
    natural none = none
    natural (some n) = if leb n max_int_64 then some (pos n) else none

    negative : Option ℕ → Option ℤ
    negative none = none
    negative (some n) =
        if n == 0
        then some (pos 0)
        else if leb n (max_int_64 + 1)
        then some (negsuc (n - 1))
        else none

    atoi : Text → Option ℤ
    atoi [] = none
    atoi (c ∷ s) =
        if c == b'-'
        then negative (magnitude s)
        else if c == b'+'
        then natural (magnitude s)
        else natural (magnitude (c ∷ s))

-- extractPortFromEndpoints, with 0 where no endpoint has a port.
unfoldable pub extract_port : Parse → List Text → ℤ
unfolding port_of
extract_port parse [] = pos 0
extract_port parse (e ∷ endpoints) =
    let rest = extract_port parse endpoints in
    elim (port_of (parse e)) [ none ↦ rest | some port ↦ port ]

abbrev pub host_of : Url → Text
host_of u = elim (split_host_port u.host) [ none ↦ u.host | some host ↦ host ]

-- fmt.Sprintf("%s:%d"), for a port that is positive.
abbrev pub host_port : Text → ℕ → Text
host_port host port = host ++ (b':' ∷ itoa port)

-- extractAddressFromEndpoints
unfoldable pub extract_address : Parse → List Text → (port : ℕ) → Text
unfolding split_host_port itoa text_eq
extract_address parse [] port = host_port (bytes "localhost") port
extract_address parse (e ∷ endpoints) port =
    let rest = extract_address parse endpoints port in
    elim (parse e) [
      | none ↦ rest
      | some u ↦ if text_eq u.scheme (bytes "http") then host_port (host_of u) port else rest
    ]

unfoldable pub with_port : Parse → List Text → (port : ℤ) → Option Text
unfolding extract_address
with_port parse endpoints (pos zero) = none
with_port parse endpoints (pos (suc n)) = some (extract_address parse endpoints (suc n))
with_port parse endpoints (negsuc n) = none

-- The address of an instance without an endpoint of the scheme: gRPC takes one from the HTTP
-- endpoints, when there is a port; every other scheme skips the instance.
unfoldable pub fallback : Parse → (scheme : Text) → List Text → Option Text
unfolding extract_port with_port text_eq
fallback parse scheme endpoints =
    if text_eq scheme (bytes "grpc")
    then with_port parse endpoints (extract_port parse endpoints)
    else none

unfoldable pub or_fallback : Parse → Text → List Text → Option Text → Option Text
unfolding fallback
or_fallback parse scheme endpoints none = fallback parse scheme endpoints
or_fallback parse scheme endpoints (some []) = fallback parse scheme endpoints
or_fallback parse scheme endpoints (some (c ∷ addr)) = some (c ∷ addr)

unfoldable pub address_of : Parse → (scheme : Text) → List Text → Option Text
unfolding or_fallback parse_endpoint
address_of parse scheme endpoints =
    or_fallback parse scheme endpoints (parse_endpoint parse endpoints scheme false)

abbrev pub service_node : Protocol → ServiceInstance → Text → Node
service_node protocol s addr =
    new_node addr protocol (some (node_weight s)) s.metadata s.version s.name

unfoldable pub add_node : Protocol → ServiceInstance → Option Text → List Node → List Node
unfolding new_node node_weight
add_node protocol s none nodes = nodes
add_node protocol s (some addr) nodes = service_node protocol s addr ∷ nodes

-- The loop of Callback.
unfoldable pub nodes_of : Parse → Protocol → List ServiceInstance → List Node
unfolding address_of add_node to_lower
nodes_of parse protocol [] = []
nodes_of parse protocol (s ∷ services) =
    add_node protocol s (address_of parse (to_lower (protocol_name protocol)) s.endpoints)
      (nodes_of parse protocol services)

-- nodeApplier: its nodes are those that the picker was given last.
pub record NodeApplier : Type 0 where
  pub canceled : Bool
  pub protocol : Protocol
  pub backends : List Backend
  pub picker : List Node
  pub health_checker : Option HealthChecker
  -- the services that AddWatch was called for, the latest first
  pub watched : List Text

unfoldable pub update_health : Option HealthChecker → List Node → Option HealthChecker
update_health none nodes = none
update_health (some hc) nodes = some (update_nodes hc nodes)

-- What Callback returns: ErrCancelWatch, or nil.
pub data CallbackError : Type 0 where
  cancel_watch : CallbackError

-- nodeApplier.Callback
unfoldable pub node_callback :
    Parse → List ServiceInstance → NodeApplier → Option CallbackError × NodeApplier
unfolding nodes_of update_health
node_callback parse services na =
    let nodes = nodes_of parse na.protocol services in
    if na.canceled
    then (some CallbackError.cancel_watch, na)
    else if is_empty services
    then (none, na)
    else (
      none,
      record na { picker = nodes; health_checker = update_health na.health_checker nodes },
    )

-- nodeApplier.Cancel
unfoldable pub cancel_applier : NodeApplier → NodeApplier
cancel_applier na = record na { canceled = true }

pub data ApplyError : Type 0 where
  bad_target : Text → ApplyError
  unknown_scheme : Text → ApplyError

-- The node of a backend with a direct target.
unfoldable pub direct_node : Protocol → Backend → Target → Node
unfolding new_node
direct_node protocol b t =
    new_node (if is_empty t.authority then t.endpoint else t.authority) protocol b.weight [] [] []

-- AddWatch, as far as the applier sees it: a service that is watched already gives the instances of
-- its cache to the applier at once.
unfoldable pub add_watch :
    Parse → (cached : List ServiceInstance) → Text → NodeApplier → NodeApplier
unfolding node_callback
add_watch parse cached endpoint na =
    let registered = record na { watched = endpoint ∷ na.watched } in
    if is_empty cached then registered else (node_callback parse cached registered).1

-- One backend of the loop of apply, before the rest of the loop: the picker gets all direct nodes
-- so far, and a service is watched. The instances that the watcher has cached are given for each
-- service, none for one that is not watched.
unfoldable pub apply_target :
    Parse
    → (cached : Text → List ServiceInstance)
    → (rest : List Node → NodeApplier → Option ApplyError × NodeApplier) → List Node
    → Backend
    → NodeApplier
    → Option Target
    → Option ApplyError × NodeApplier
unfolding direct_node text_eq add_watch
apply_target parse cached rest nodes b na none = (some (ApplyError.bad_target b.target), na)
apply_target parse cached rest nodes b na (some t) =
    let more = nodes ++ (direct_node na.protocol b t ∷ []) in
    if text_eq t.scheme (bytes "direct")
    then rest more (record na { picker = more })
    else if text_eq t.scheme (bytes "discovery")
    then rest nodes (add_watch parse (cached t.endpoint) t.endpoint na)
    else (some (ApplyError.unknown_scheme t.scheme), na)

-- The loop of apply, with the direct nodes so far.
unfoldable pub apply_from :
    Parse
    → (cached : Text → List ServiceInstance) → List Node
    → List Backend
    → NodeApplier
    → Option ApplyError × NodeApplier
unfolding parse_target apply_target
apply_from parse cached nodes [] na = (none, na)
apply_from parse cached nodes (b ∷ backends) na =
    apply_target parse cached (λ ns applier. apply_from parse cached ns backends applier) nodes b na
      (parse_target parse b.target)

-- nodeApplier.apply
unfoldable pub apply_backends :
    Parse → (cached : Text → List ServiceInstance) → NodeApplier → Option ApplyError × NodeApplier
unfolding apply_from
apply_backends parse cached na = apply_from parse cached [] na.backends na
