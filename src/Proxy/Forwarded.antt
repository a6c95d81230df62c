-- ===== src/Proxy/Forwarded.antt =====
-- setXFFHeader of proxy/proxy.go: the addresses that a request has come from.
pub mod Laws
mod Tests
use ecommerce_gateway.Common.{
  Option, none, some, List, [], ◌∷◌, ◌++◌, Text, bytes, lookup, join, Header, Slice, set_header,
  split_host_port,
}
use ecommerce_gateway.Http.{Request}

-- The values that a request has, before its own address; a nil list means that none is wanted.
unfoldable pub forwarded : Text → List Text → Text
unfolding join
forwarded client_ip [] = client_ip
forwarded client_ip (v ∷ prior) = join (bytes ", ") (v ∷ prior) ++ (bytes ", " ++ client_ip)

with_forwarded : Text → Option Slice → Header → Header
unfolding forwarded
with_forwarded client_ip none h = set_header h (bytes "X-Forwarded-For") (forwarded client_ip [])
with_forwarded client_ip (some none) h = h
with_forwarded client_ip (some (some prior)) h =
    set_header h (bytes "X-Forwarded-For") (forwarded client_ip prior)

unfoldable pub set_xff_header : Request → Request
unfolding with_forwarded split_host_port
set_xff_header r = elim (split_host_port r.remote_addr) [
  | none ↦ r
  | some client_ip ↦ record r {
    header = with_forwarded client_ip (lookup (bytes "X-Forwarded-For") r.header) r.header;
  }
]
