-- ===== src/Client/Health/Loop.antt =====
-- Start, Stop and runCheckLoop of client/health_checker.go: the ticker, the context and the
-- goroutine of the loop. `select` evaluates `hc.ticker.C` on each round, so a round that begins
-- while the ticker is nil panics.
use ecommerce_gateway.Common.{Bool, true, false, ◌≡◌, refl, arith, if◌then◌else◌, List, [], ◌∷◌}

-- Where the goroutine of runCheckLoop stands; one that is spawned has not run yet.
pub data Goroutine : Type 0 where
  absent spawned blocked checking returned panicked : Goroutine

pub record Lifecycle : Type 0 where
  -- hc.ticker != nil
  pub ticking : Bool
  -- hc.ctx is done
  pub cancelled : Bool
  pub goroutine : Goroutine

abbrev pub fresh : Lifecycle
fresh = record { ticking = false; cancelled = false; goroutine = absent }

-- The head of the loop: the channels of `select` are evaluated, then it waits. A context that is
-- done returns at once.
unfoldable pub loop_head : Lifecycle → Lifecycle
loop_head s =
    if s.ticking
    then record s { goroutine = if s.cancelled then returned else blocked }
    else record s { goroutine = panicked }

unfoldable pub start : Lifecycle → Lifecycle
start s = if s.ticking then s else record s { ticking = true; goroutine = spawned }

-- A loop that waits in `select` wakes and returns; one that runs its checks goes on with them, and
-- one that has not run yet will.
unfoldable pub wake : Goroutine → Goroutine
wake blocked = returned
wake g = g

unfoldable pub stop : Lifecycle → Lifecycle
unfolding wake
stop s = record s { ticking = false; cancelled = true; goroutine = wake s.goroutine }

begin_round : Goroutine → Goroutine
begin_round blocked = checking
begin_round g = g

-- The ticker fires: a loop that waits begins checkAllNodes.
pub tick : Lifecycle → Lifecycle
unfolding begin_round
tick s = if s.ticking then record s { goroutine = begin_round s.goroutine } else s

finish : Lifecycle → Goroutine → Lifecycle
finish s checking = loop_head s
finish s g = s

-- All probes of the round have come back, and the loop goes round.
pub round_done : Lifecycle → Lifecycle
unfolding finish loop_head
round_done s = finish s s.goroutine

go : Lifecycle → Goroutine → Lifecycle
unfolding loop_head
go s spawned = loop_head s
go s checking = loop_head s
go s g = s

-- A goroutine that was spawned runs, or one that checks is done with its round: either one comes to
-- the head of the loop.
unfoldable pub resume : Lifecycle → Lifecycle
unfolding go
resume s = go s s.goroutine

first_run : Lifecycle → Goroutine → Lifecycle
unfolding loop_head
first_run s spawned = loop_head s
first_run s g = s

-- What the goroutine does by itself.
pub data LoopStep : Type 0 where
  runs ticks rounds : LoopStep

unfoldable pub loop_step : Lifecycle → LoopStep → Lifecycle
unfolding first_run tick round_done
loop_step s runs = first_run s s.goroutine
loop_step s ticks = tick s
loop_step s rounds = round_done s

unfoldable pub loop_steps : Lifecycle → List LoopStep → Lifecycle
unfolding loop_step
loop_steps s [] = s
loop_steps s (step ∷ rest) = loop_steps (loop_step s step) rest

pub data Move : Type 0 where
  starts stops : Move
  goes_on : LoopStep → Move

move : Lifecycle → Move → Lifecycle
unfolding start stop loop_step
move s starts = start s
move s stops = stop s
move s (goes_on step) = loop_step s step

unfoldable pub moves : Lifecycle → List Move → Lifecycle
unfolding move
moves s [] = s
moves s (m ∷ ms) = moves (move s m) ms

-- Stopping a checker while its loop runs a round of checks makes the loop panic when the round is
-- done, and stopping one whose loop waits between two rounds makes it return.
pub stop-goroutine :
    (s : Lifecycle)
    → (s.goroutine ≡ checking → (round_done (stop s)).goroutine ≡ panicked)
      × (s.goroutine ≡ blocked → (round_done (stop s)).goroutine ≡ returned)
unfolding stop round_done
stop-goroutine s = (λ e. ground arith, λ e. ground arith)

-- The goroutine is there, and runs.
abbrev pub is_alive : Goroutine → Bool
is_alive spawned = true
is_alive blocked = true
is_alive checking = true
is_alive other = false

abbrev pub is_blocked : Goroutine → Bool
is_blocked blocked = true
is_blocked other = false

-- A checker that was started and not stopped.
abbrev pub IsRunning : Lifecycle → Type 0
IsRunning s = (s.ticking ≡ true) × (s.cancelled ≡ false) × (is_alive s.goroutine ≡ true)

loop_step-IsRunning : (s : Lifecycle) (step : LoopStep) → IsRunning s → IsRunning (loop_step s step)
unfolding loop_step first_run tick begin_round round_done finish loop_head
loop_step-IsRunning s runs h = ground (arith, h)
loop_step-IsRunning s ticks h = ground (arith, h)
loop_step-IsRunning s rounds h = ground (arith, h)

pub loop_steps-IsRunning :
    (s : Lifecycle) (steps : List LoopStep) → IsRunning s → IsRunning (loop_steps s steps)
unfolding loop_steps
loop_steps-IsRunning s [] h = h
loop_steps-IsRunning s (step ∷ rest) h =
    loop_steps-IsRunning (loop_step s step) rest (loop_step-IsRunning s step h)

-- A goroutine that waits in `select` when the checker is stopped has returned, and one that has not
-- run yet or is in a round panics as soon as it goes on.
pub resume-stop :
    (s : Lifecycle)
    → is_alive s.goroutine ≡ true
    → ((stop s).cancelled ≡ true)
      × ((resume (stop s)).goroutine ≡ (if is_blocked s.goroutine then returned else panicked))
unfolding resume stop go wake loop_head
resume-stop s h = (refl, ground (arith, h))
