-- ===== src/Proxy/Forwarded/Tests.antt =====
-- setXFFHeader of proxy/proxy.go at one request.
use ecommerce_gateway.Common.{◌≡◌, refl, some, [], ◌∷◌, bytes, split_host_port, cut, has_byte, any}
use ecommerce_gateway.Http.{Request}

abbrev proxied : Request
proxied = record {
  method = bytes "GET";
  host = bytes "h";
  path = bytes "/";
  header = (bytes "X-Forwarded-For", some (bytes "10.0.0.9" ∷ [])) ∷ [];
  remote_addr = bytes "10.0.0.1:5000";
  body = [];
}

in_brackets : split_host_port (bytes "[::1]:80") ≡ some (bytes "::1")
unfolding split_host_port cut has_byte any
in_brackets = refl
