-- ===== src/Middleware/Request/Tests.antt =====
-- The filter of middleware/request.go at a concrete input.
use ecommerce_gateway.Common.{◌≡◌, refl, none, [], ◌∷◌, bytes, text_eq}
use ecommerce_gateway.Client.Node.{Node, new_node, http}
use ecommerce_gateway.Middleware.Request.{retry_filter}

abbrev node_a : Node
node_a = new_node (bytes "10.0.0.1:80") http none [] [] []

abbrev node_b : Node
node_b = new_node (bytes "10.0.0.2:80") http none [] [] []

other_node : retry_filter (bytes "10.0.0.1:80" ∷ []) (node_a ∷ node_b ∷ []) ≡ node_b ∷ []
unfolding retry_filter text_eq new_node
other_node = refl
