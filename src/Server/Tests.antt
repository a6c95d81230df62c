-- ===== src/Server/Tests.antt =====
-- The header of HTTP/3 on an example: server/proxy.go.
use ecommerce_gateway.Common.{◌≡◌, refl, [], bytes}
use ecommerce_gateway.Server.{ports_of, alt_value}

-- The default port has a colon, and the value adds one.
two_colons :
    alt_value (ports_of []).http3_port ≡ bytes "h3=\"::443\"; ma=86400, h3-29=\"::443\"; ma=86400"
unfolding alt_value ports_of
two_colons = refl
