-- ===== src/Client/RoundTrip/Tests.antt =====
-- The laws of client/client.go at concrete inputs.
use ecommerce_gateway.Common.{◌≡◌, refl, none, [], ◌∷◌, bytes}
use ecommerce_gateway.Errors.Codes.{plain}
use ecommerce_gateway.Client.Node.{Node, new_node, http}
use ecommerce_gateway.Middleware.Request.{new_request_options}
use ecommerce_gateway.Client.RoundTrip.{chosen, broken, Env, round_trip, default_max_retries}
use ecommerce_gateway.Client.RoundTrip.Laws.{Called, round_trip-Called}

abbrev node_a : Node
node_a = new_node (bytes "10.0.0.1:80") http none [] [] []

-- One node, which refuses every connection.
abbrev refusing : Env
refusing = record {
  choose = λ i filters. chosen node_a;
  answer = λ i n. broken (plain (bytes "connection refused"));
}

done_twice :
    (round_trip refusing [] default_max_retries none new_request_options).0.done_calls ≡ 0 ∷ 0 ∷ []
unfolding round_trip
done_twice = refl

round_trip-Called_example :
    Called
      (round_trip refusing [] 2 none new_request_options).0
      (round_trip refusing [] 2 none new_request_options).1
round_trip-Called_example = round_trip-Called refusing [] 2 none new_request_options
