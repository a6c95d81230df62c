-- ===== src/Middleware/Ip.antt =====
-- middleware/ip/ip.go: the address of the client, as a header for the services.
mod Laws
mod Tests
use ecommerce_gateway.Common.{
  not, Option, none, some, List, Text, bytes, is_empty, first_or_empty, split, trim_space, get,
  set_header, split_host_port, if◌then◌else◌,
}
use ecommerce_gateway.Http.{Request}
use ecommerce_gateway.Middleware.Registry.{Middleware}

-- The address that the request came from, or all of it when it has no port.
remote_ip : Text → Text
unfolding split_host_port
remote_ip addr = elim (split_host_port addr) [ none ↦ addr | some ip ↦ ip ]

pub get_client_ip : Request → Text
unfolding remote_ip split trim_space
get_client_ip r =
    let real = get r.header (bytes "X-Real-IP") in
    let forwarded = get r.header (bytes "X-Forwarded-For") in
    if not (is_empty real)
    then real
    else if not (is_empty forwarded)
    then trim_space (first_or_empty (split b',' forwarded))
    else remote_ip r.remote_addr

pub with_client_ip : Request → Request
unfolding get_client_ip
with_client_ip r = record r { header = set_header r.header (bytes "X-Client-IP") (get_client_ip r) }

pub middleware : Middleware
unfolding with_client_ip
middleware next r = next (with_client_ip r)

-- FormatClientIP
pub format_client_ip : Request → Text
unfolding get_client_ip
format_client_ip r = if not (is_empty (get_client_ip r)) then get_client_ip r else bytes "unknown"
