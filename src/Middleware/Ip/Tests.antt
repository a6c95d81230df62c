-- ===== src/Middleware/Ip/Tests.antt =====
-- middleware/ip/ip.go at one request.
use ecommerce_gateway.Common.{
  ◌≡◌, refl, [], bytes, get, split_host_port, cut, has_byte, any, canonical, lookup,
}
use ecommerce_gateway.Http.{Request}
use ecommerce_gateway.Middleware.Ip.{get_client_ip, remote_ip}

abbrev direct : Request
direct = record {
  method = bytes "GET";
  host = bytes "h";
  path = bytes "/";
  header = [];
  remote_addr = bytes "10.0.0.1:5000";
  body = [];
}

seen_host : get_client_ip direct ≡ bytes "10.0.0.1"
unfolding get_client_ip get lookup canonical remote_ip split_host_port cut has_byte any
seen_host = refl
