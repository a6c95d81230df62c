-- ===== src/Proxy/Condition/Tests.antt =====
-- The laws of proxy/condition/condition.go and proxy/retry.go at concrete inputs.
use ecommerce_gateway.Common.{◌≡◌, refl, pos, negsuc, none, some, [], ◌∷◌, bytes}
use ecommerce_gateway.Client.Node.{http}
use ecommerce_gateway.Config.Types.{Endpoint, RawCondition}
use ecommerce_gateway.Proxy.Condition.{by_status_code, prepare_codes, parse_int_16}
use ecommerce_gateway.Proxy.Retry.{RetryStrategy}

parsed_range : prepare_codes (bytes "500-599") ≡ some (pos 500 ∷ pos 599 ∷ [])
unfolding prepare_codes parse_int_16
parsed_range = refl

refused_range : prepare_codes (bytes "500-") ≡ none
unfolding prepare_codes parse_int_16
refused_range = refl

too_large : parse_int_16 (bytes "32768") ≡ none
unfolding parse_int_16
too_large = refl

abbrev endpoint : Endpoint
endpoint = record {
  path = bytes "/a";
  method = bytes "GET";
  protocol = http;
  timeout = some (negsuc 0);
  middlewares = [];
  backends = [];
  retry = some (record {
    attempts = 0;
    per_try_timeout = none;
    conditions = RawCondition.by_status_code (bytes "500") ∷ [];
  });
  metadata = [];
  host = [];
}

abbrev prepared : RetryStrategy
prepared = record {
  attempts = 1;
  timeout = pos 1000000000;
  per_try_timeout = pos 1000000000;
  conditions = by_status_code (pos 500 ∷ []) ∷ [];
}
