-- ===== src/Client/Factory/Build/Tests.antt =====
-- Clients on examples: client/factory.go.
use ecommerce_gateway.Common.{
  ◌≡◌, refl, true, false, none, some, List, [], ◌∷◌, Text, bytes, text_eq, if◌then◌else◌,
}
use ecommerce_gateway.Config.Types.{Endpoint}
use ecommerce_gateway.Client.Node.{Protocol}
use ecommerce_gateway.Client.Health.Loop.{Goroutine, LoopStep}
use ecommerce_gateway.Client.Watch.{ServiceInstance}
use ecommerce_gateway.Http.{Url, Parse}
use ecommerce_gateway.Client.Factory.{ApplyError}
use ecommerce_gateway.Client.Factory.Build.{
  default_options, new_client, close_client, use_client, started_loop,
}
use ecommerce_gateway.Client.Factory.Build.Laws.{
  Runs, Ends, IsKept, IsCanceled, new_client-failed, new_client-made,
}

abbrev orders_url : Url
orders_url = record {
  scheme = bytes "discovery";
  host = [];
  path = bytes "/orders";
  is_secure_value = [];
}

unfoldable parse : Parse
unfolding text_eq
parse s = if text_eq s (bytes "discovery:///orders") then some orders_url else none

abbrev endpoint_with : Text → Endpoint
endpoint_with target = record {
  path = bytes "/shop.Orders*";
  method = bytes "POST";
  protocol = Protocol.grpc;
  timeout = none;
  middlewares = [];
  backends =
      record { target = bytes "discovery:///orders"; weight = none }
      ∷ record { target = target; weight = none }
      ∷ [];
  retry = none;
  metadata = [];
  host = [];
}

-- No service is watched yet.
abbrev no_cache : Text → List ServiceInstance
no_cache endpoint = []

-- The watch of the first backend outlives the error of the second one.
still_watched :
    (new_client parse no_cache [] default_options (endpoint_with (bytes "://"))).1.applier.watched
    ≡ bytes "orders" ∷ []
unfolding new_client parse
still_watched = refl

-- The goroutine has not run yet when the error comes, and its ticker is gone.
quick_error :
    (new_client parse no_cache [] default_options (endpoint_with (bytes "://"))).1.lifecycle
    ≡ some (record { ticking = false; cancelled = true; goroutine = Goroutine.spawned })
unfolding new_client parse
quick_error = refl

new_client-failed_example :
    let c = (new_client parse no_cache [] default_options (endpoint_with (bytes "://"))).1 in
    Ends (started_loop true []) c.lifecycle × IsKept c.applier
unfolding new_client parse
new_client-failed_example =
    new_client-failed parse no_cache [] default_options (endpoint_with (bytes "://"))
      (ApplyError.bad_target (bytes "://")) refl

new_client-made_example :
    let c =
      use_client
        (LoopStep.ticks ∷ [])
        (new_client parse no_cache
          (LoopStep.runs ∷ [])
          default_options
          (endpoint_with (bytes "discovery:///orders"))).1 in
    Runs true c.lifecycle
    × IsKept c.applier
    × Ends c.lifecycle (close_client c).lifecycle
    × IsCanceled (close_client c).applier
unfolding new_client parse
new_client-made_example =
    new_client-made parse no_cache (LoopStep.runs ∷ []) (LoopStep.ticks ∷ []) default_options
      (endpoint_with (bytes "discovery:///orders")) refl
