-- ===== src/Server.antt =====
-- server/proxy.go: the ports of the server, and the header that announces HTTP/3.
mod Tests
use ecommerce_gateway.Common.{
  ℕ, ltb, not, Bool, ◌&&◌, List, [], ◌∷◌, ◌++◌, Text, bytes, text_eq, lookup, Map, Header,
  add_header, is_empty, if◌then◌else◌,
}
use ecommerce_gateway.Loader.Source.{getenv}

-- The fields of ProxyServer that NewProxy reads from the environment.
pub record Ports : Type 0 where
  pub use_tls : Bool
  pub use_h3 : Bool
  pub http_port : Text
  pub http3_port : Text

abbrev pub or_default : Text → Text → Text
or_default value default = if is_empty value then default else value

-- NewProxy
unfoldable pub ports_of : Map Text → Ports
unfolding text_eq lookup
ports_of env = record {
  use_tls = text_eq (getenv env (bytes "USE_TLS")) (bytes "true");
  use_h3 = text_eq (getenv env (bytes "USE_HTTP3")) (bytes "true");
  http_port = or_default (getenv env (bytes "HTTP_PORT")) (bytes ":8080");
  http3_port = or_default (getenv env (bytes "HTTP3_PORT")) (bytes ":443");
}

-- The value of Alt-Svc.
unfoldable pub alt_value : Text → Text
alt_value port =
    bytes "h3=\":" ++ (port ++ (bytes "\"; ma=86400, h3-29=\":" ++ (port ++ bytes "\"; ma=86400")))

-- altSvcMiddleware, on the headers of the answer.
unfoldable pub alt_svc : (proto_major : ℕ) (port : Text) → Header → Header
unfolding alt_value
alt_svc proto_major port h =
    if ltb proto_major 3 && not (is_empty port)
    then add_header h (bytes "Alt-Svc") (alt_value port)
    else h
