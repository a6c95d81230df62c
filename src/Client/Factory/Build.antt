-- ===== src/Client/Factory/Build.antt =====
-- NewFactory of client/factory.go: how the client of an endpoint is put together, what is left when
-- that fails, and Close of client/client.go.
mod Laws
mod Tests
use ecommerce_gateway.Common.{
  ℤ, pos, Bool, true, false, ◌&&◌, Option, none, some, List, [], ◌∷◌, Text, bytes, has_suffix,
  if◌then◌else◌,
}
use ecommerce_gateway.Config.Types.{Endpoint}
use ecommerce_gateway.Client.Node.{Protocol}
use ecommerce_gateway.Client.Health.{HealthChecker, new_health_checker}
use ecommerce_gateway.Client.Health.Loop.{Lifecycle, LoopStep, fresh, start, stop, loop_steps}
use ecommerce_gateway.Client.Watch.{ServiceInstance}
use ecommerce_gateway.Http.{Parse}
use ecommerce_gateway.Client.Factory.{NodeApplier, ApplyError, apply_backends, cancel_applier}

pub record FactoryOptions : Type 0 where
  pub enable_health_check : Bool
  pub health_check_interval : ℤ
  pub health_check_timeout : ℤ
  pub max_health_check_retries : ℤ

-- The options that NewFactory begins with; the picker's builder is not represented.
abbrev pub default_options : FactoryOptions
default_options = record {
  enable_health_check = true;
  health_check_interval = pos 10000000000;
  health_check_timeout = pos 2000000000;
  max_health_check_retries = pos 3;
}

-- The loop over the options.
unfoldable pub apply_options :
    List (FactoryOptions → FactoryOptions) → FactoryOptions → FactoryOptions
apply_options [] o = o
apply_options (opt ∷ opts) o = apply_options opts (opt o)

-- The options of the health check.
abbrev pub with_health_check : Bool → FactoryOptions → FactoryOptions
with_health_check enable o = record o { enable_health_check = enable }

abbrev pub with_health_check_interval : ℤ → FactoryOptions → FactoryOptions
with_health_check_interval interval o = record o { health_check_interval = interval }

abbrev pub with_health_check_timeout : ℤ → FactoryOptions → FactoryOptions
with_health_check_timeout timeout o = record o { health_check_timeout = timeout }

-- What the factory makes for an endpoint: the applier with its health checker, the loop of that
-- checker, and whether a grpcClient stands around the client.
pub record BuiltClient : Type 0 where
  pub applier : NodeApplier
  pub lifecycle : Option Lifecycle
  pub is_grpc : Bool

unfoldable pub checker_of : FactoryOptions → Option HealthChecker
checker_of o =
    if o.enable_health_check
    then some (
        new_health_checker [] o.health_check_interval o.health_check_timeout
          o.max_health_check_retries)
    else none

-- The loop that Start begins, and the steps that its goroutine makes during apply.
unfoldable pub started_loop : Bool → List LoopStep → Option Lifecycle
unfolding start loop_steps
started_loop enable steps = if enable then some (loop_steps (start fresh) steps) else none

-- A loop goes on.
unfoldable pub step_loop : List LoopStep → Option Lifecycle → Option Lifecycle
unfolding loop_steps
step_loop steps none = none
step_loop steps (some l) = some (loop_steps l steps)

unfoldable pub stop_loop : Option Lifecycle → Option Lifecycle
unfolding stop
stop_loop none = none
stop_loop (some l) = some (stop l)

unfoldable pub new_applier : FactoryOptions → Endpoint → NodeApplier
unfolding checker_of
new_applier o e = record {
  canceled = false;
  protocol = e.protocol;
  backends = e.backends;
  picker = [];
  health_checker = checker_of o;
  watched = [];
}

abbrev pub is_grpc_protocol : Protocol → Bool
is_grpc_protocol Protocol.grpc = true
is_grpc_protocol other = false

abbrev pub is_grpc_endpoint : Endpoint → Bool
is_grpc_endpoint e = is_grpc_protocol e.protocol && has_suffix e.path (bytes "*")

unfoldable pub finish_client :
    FactoryOptions
    → Endpoint
    → List LoopStep
    → Option ApplyError × NodeApplier
    → Option ApplyError × BuiltClient
unfolding started_loop stop_loop
finish_client o e steps (none, na) = (
  none,
  record {
    applier = na;
    lifecycle = started_loop o.enable_health_check steps;
    is_grpc = is_grpc_endpoint e;
  },
)
finish_client o e steps (some err, na) = (
  some err,
  record {
    applier = na;
    lifecycle = stop_loop (started_loop o.enable_health_check steps);
    is_grpc = false;
  },
)

-- The function that NewFactory returns. With an error the caller gets no client; what it leaves
-- behind stands beside the error here. The cached instances are those of AddWatch, and the steps
-- those of the health checker's goroutine in the meantime.
unfoldable pub new_client :
    Parse
    → (cached : Text → List ServiceInstance) → List LoopStep
    → FactoryOptions
    → Endpoint
    → Option ApplyError × BuiltClient
unfolding new_applier apply_backends finish_client
new_client parse cached steps o e =
    finish_client o e steps (apply_backends parse cached (new_applier o e))

-- The health checker's goroutine goes on while the client is in use.
unfoldable pub use_client : List LoopStep → BuiltClient → BuiltClient
unfolding step_loop
use_client steps c = record c { lifecycle = step_loop steps c.lifecycle }

-- Close
unfoldable pub close_client : BuiltClient → BuiltClient
unfolding cancel_applier stop_loop
close_client c = record c { applier = cancel_applier c.applier; lifecycle = stop_loop c.lifecycle }
