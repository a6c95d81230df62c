-- ===== src/Client/Node.antt =====
-- client/node.go: the backend instances that the selector chooses from.
use ecommerce_gateway.Common.{ℤ, Option, Text, bytes, has_prefix, to_lower, Map, if◌then◌else◌}

-- config.Protocol of the endpoint configuration.
pub data Protocol : Type 0 where
  unspecified http grpc : Protocol

-- Protocol.String()
abbrev pub protocol_name : Protocol → Text
protocol_name unspecified = bytes "UNSPECIFIED"
protocol_name http = bytes "HTTP"
protocol_name grpc = bytes "GRPC"

-- The three shared HTTP clients.
pub data HttpClient : Type 0 where
  global_client global_h2_client global_h2c_client : HttpClient

pub record Node : Type 0 where
  pub address : Text
  pub name : Text
  pub weight : Option ℤ
  pub version : Text
  pub metadata : Map Text
  pub client : HttpClient
  pub protocol : Protocol

-- The client of a node: HTTP/2 for gRPC, over TLS where the address says https.
unfoldable pub client_for : Protocol → Text → HttpClient
unfolding has_prefix
client_for grpc addr =
    if has_prefix addr (bytes "https://") then global_h2_client else global_h2c_client
client_for other addr = global_client

unfoldable pub new_node : Text → Protocol → Option ℤ → Map Text → Text → Text → Node
unfolding client_for
new_node addr protocol weight md version name = record {
  address = addr;
  name = name;
  weight = weight;
  version = version;
  metadata = md;
  client = client_for protocol addr;
  protocol = protocol;
}

unfoldable pub scheme : Node → Text
unfolding to_lower
scheme n = to_lower (protocol_name n.protocol)
