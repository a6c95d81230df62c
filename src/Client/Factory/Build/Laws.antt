-- ===== src/Client/Factory/Build/Laws.antt =====
-- What runs on and what ends with a client of client/factory.go.
use ecommerce_gateway.Common.{
  ◌≡◌, ◌∙◌, ap, refl, arith, Bool, true, false, Option, none, some, List, [], ◌∷◌, ◌++◌, Text,
  if◌then◌else◌,
}
use ecommerce_gateway.Config.Types.{Backend, Endpoint}
use ecommerce_gateway.Client.Node.{Node}
use ecommerce_gateway.Client.Health.Loop.{
  Lifecycle, Goroutine, LoopStep, fresh, start, resume, is_blocked, IsRunning, loop_steps-IsRunning,
  resume-stop,
}
use ecommerce_gateway.Client.Watch.{ServiceInstance}
use ecommerce_gateway.Client.Target.{Target, parse_target}
use ecommerce_gateway.Http.{Parse}
use ecommerce_gateway.Client.Factory.{
  NodeApplier, ApplyError, CallbackError, add_watch, apply_target, apply_from, apply_backends,
  cancel_applier, node_callback, direct_node,
}
use ecommerce_gateway.Client.Factory.Build.{
  FactoryOptions, started_loop, stop_loop, step_loop, use_client, finish_client, new_client,
  close_client, new_applier,
}

node_callback-canceled :
    (parse : Parse) (services : List ServiceInstance) (na : NodeApplier)
    → (node_callback parse services na).1.canceled ≡ na.canceled
unfolding node_callback
node_callback-canceled parse services na = ground arith

add_watch-canceled :
    (parse : Parse) (cached : List ServiceInstance) (endpoint : Text) (na : NodeApplier)
    → (add_watch parse cached endpoint na).canceled ≡ na.canceled
unfolding add_watch
add_watch-canceled parse cached endpoint na =
    ground
      (arith, node_callback-canceled parse cached (record na { watched = endpoint ∷ na.watched }))

apply_target-canceled :
    (parse : Parse) (cached : Text → List ServiceInstance)
    (rest : List Node → NodeApplier → Option ApplyError × NodeApplier)
    → ((ns : List Node) (na : NodeApplier) → (rest ns na).1.canceled ≡ na.canceled)
    → (nodes : List Node) (b : Backend) (na : NodeApplier) (t : Option Target)
    → (apply_target parse cached rest nodes b na t).1.canceled ≡ na.canceled
unfolding apply_target
apply_target-canceled parse cached rest kept nodes b na none = refl
apply_target-canceled parse cached rest kept nodes b na (some t) =
    let more = nodes ++ (direct_node na.protocol b t ∷ []) in
    let watching = add_watch parse (cached t.endpoint) t.endpoint na in
    let watched : (rest nodes watching).1.canceled ≡ na.canceled =
      kept nodes watching ∙ add_watch-canceled parse (cached t.endpoint) t.endpoint na in
    ground (arith, kept more (record na { picker = more }), watched)

apply_from-canceled :
    (parse : Parse) (cached : Text → List ServiceInstance) (nodes : List Node) (bs : List Backend)
    (na : NodeApplier)
    → (apply_from parse cached nodes bs na).1.canceled ≡ na.canceled
unfolding apply_from
apply_from-canceled parse cached nodes [] na = refl
apply_from-canceled parse cached nodes (b ∷ bs) na =
    apply_target-canceled parse cached (λ ns applier. apply_from parse cached ns bs applier)
      (λ ns applier. apply_from-canceled parse cached ns bs applier) nodes b na
      (parse_target parse b.target)

apply_backends-canceled :
    (parse : Parse) (cached : Text → List ServiceInstance) (na : NodeApplier)
    → (apply_backends parse cached na).1.canceled ≡ na.canceled
unfolding apply_backends
apply_backends-canceled parse cached na = apply_from-canceled parse cached [] na.backends na

-- Whether the watcher of a service keeps the applier: Callback does not answer ErrCancelWatch.
abbrev pub IsKept : NodeApplier → Type 0
IsKept na =
    (parse : Parse) (services : List ServiceInstance) → (node_callback parse services na).0 ≡ none

abbrev pub IsCanceled : NodeApplier → Type 0
IsCanceled na =
    (parse : Parse) (services : List ServiceInstance)
    → node_callback parse services na ≡ (some CallbackError.cancel_watch, na)

live-IsKept : (na : NodeApplier) → na.canceled ≡ false → IsKept na
unfolding node_callback
live-IsKept na live parse services = ground (arith, live)

cancel_applier-IsCanceled : (na : NodeApplier) → IsCanceled (cancel_applier na)
unfolding node_callback cancel_applier
cancel_applier-IsCanceled na parse services = refl

-- There is a running health checker, where the options ask for one.
abbrev pub Runs : (enabled : Bool) → Option Lifecycle → Type 0
Runs true none = ⊥
Runs true (some l) = IsRunning l
Runs false l = l ≡ none

-- The health checker, if there is one, is stopped: its goroutine has returned if it waited for its
-- ticker, and panics as soon as it goes on if it had not run yet or was in a round.
abbrev pub Ends : (before after : Option Lifecycle) → Type 0
Ends none after = after ≡ none
Ends (some l) none = ⊥
Ends (some l) (some l') =
    (l'.cancelled ≡ true)
    × ((resume l').goroutine
        ≡ (if is_blocked l.goroutine then Goroutine.returned else Goroutine.panicked))

started_loop-Runs :
    (enabled : Bool) (steps : List LoopStep) → Runs enabled (started_loop enabled steps)
unfolding started_loop start
started_loop-Runs false steps = refl
started_loop-Runs true steps = loop_steps-IsRunning (start fresh) steps (refl, refl, refl)

step_loop-Runs :
    (enabled : Bool) (steps : List LoopStep) (l : Option Lifecycle)
    → Runs enabled l
    → Runs enabled (step_loop steps l)
unfolding step_loop
step_loop-Runs true steps none h = h
step_loop-Runs true steps (some l) h = loop_steps-IsRunning l steps h
step_loop-Runs false steps l h = ap (step_loop steps) h

stop_loop-Ends : (enabled : Bool) (l : Option Lifecycle) → Runs enabled l → Ends l (stop_loop l)
unfolding stop_loop
stop_loop-Ends enabled none h = refl
stop_loop-Ends true (some l) h = resume-stop l h.2
stop_loop-Ends false (some l) h = cc

failed-Left :
    (o : FactoryOptions) (e : Endpoint) (steps : List LoopStep)
    (made : Option ApplyError × NodeApplier) (err : ApplyError)
    → made.1.canceled ≡ false
    → (finish_client o e steps made).0 ≡ some err
    → let c = (finish_client o e steps made).1 in
      Ends (started_loop o.enable_health_check steps) c.lifecycle × IsKept c.applier
unfolding finish_client
failed-Left o e steps (none, na) err live failed = cc
failed-Left o e steps (some f, na) err live failed = (
  stop_loop-Ends o.enable_health_check (started_loop o.enable_health_check steps)
      (started_loop-Runs o.enable_health_check steps),
  live-IsKept na live,
)

-- When the client of an endpoint cannot be built, its health checker, where the options ask for
-- one, has been stopped: the goroutine has returned if it waited for its ticker by then, and it
-- panics when it goes on if it had not run yet or was in a round. But the applier is not canceled:
-- whatever lists the watchers send to which it was added before the error, it does not ask them to
-- cancel the watch.
pub new_client-failed :
    (parse : Parse) (cached : Text → List ServiceInstance) (steps : List LoopStep)
    (o : FactoryOptions) (e : Endpoint) (err : ApplyError)
    → (new_client parse cached steps o e).0 ≡ some err
    → let c = (new_client parse cached steps o e).1 in
      Ends (started_loop o.enable_health_check steps) c.lifecycle × IsKept c.applier
unfolding new_client new_applier
new_client-failed parse cached steps o e err failed =
    failed-Left o e steps (apply_backends parse cached (new_applier o e)) err
      (apply_backends-canceled parse cached (new_applier o e)) failed

made-Runs :
    (o : FactoryOptions) (e : Endpoint) (steps later : List LoopStep)
    (made : Option ApplyError × NodeApplier)
    → made.1.canceled ≡ false
    → (finish_client o e steps made).0 ≡ none
    → let c = use_client later (finish_client o e steps made).1 in
      Runs o.enable_health_check c.lifecycle
      × IsKept c.applier
      × Ends c.lifecycle (close_client c).lifecycle
      × IsCanceled (close_client c).applier
unfolding finish_client close_client use_client
made-Runs o e steps later (none, na) live done =
    let runs =
      step_loop-Runs o.enable_health_check later (started_loop o.enable_health_check steps)
        (started_loop-Runs o.enable_health_check steps) in
    (
      runs,
      live-IsKept na live,
      stop_loop-Ends o.enable_health_check
          (step_loop later (started_loop o.enable_health_check steps)) runs,
      cancel_applier-IsCanceled na,
    )
made-Runs o e steps later (some f, na) live done = cc

-- When the client of an endpoint can be built, its health checker is running, where the options ask
-- for one, and its applier answers no list by asking to cancel the watch, as long as the client is
-- in use. Behind Close the applier answers each list by asking to cancel the watch and takes none
-- of it, and the goroutine of the health checker has returned if it waited for its ticker, and
-- panics when it goes on if it had not run yet or was in a round.
pub new_client-made :
    (parse : Parse) (cached : Text → List ServiceInstance) (steps later : List LoopStep)
    (o : FactoryOptions) (e : Endpoint)
    → (new_client parse cached steps o e).0 ≡ none
    → let c = use_client later (new_client parse cached steps o e).1 in
      Runs o.enable_health_check c.lifecycle
      × IsKept c.applier
      × Ends c.lifecycle (close_client c).lifecycle
      × IsCanceled (close_client c).applier
unfolding new_client new_applier
new_client-made parse cached steps later o e done =
    made-Runs o e steps later (apply_backends parse cached (new_applier o e))
      (apply_backends-canceled parse cached (new_applier o e)) done
