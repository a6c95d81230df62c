-- ===== src/Config/Watching.antt =====
-- Watch, Close and the three watch loops of config/config.go: when a new configuration is tried,
-- and which goroutines look for one.
mod Invariant
mod Laws
mod Tests
use ecommerce_gateway.Common.{
  Bool, true, false, not, ◌&&◌, ◌||◌, Option, none, some, List, [], ◌∷◌, ◌++◌, map, Text, bytes,
  text_eq, Map, lookup, length, ◌==◌, any, all, select, if◌then◌else◌,
}
use ecommerce_gateway.Config.Types.{Gateway}
use ecommerce_gateway.Config.Reload.{EnvValue, FileLoader, execute_loader}
use ecommerce_gateway.Loader.Source.{Event}

-- The goroutines that Watch starts.
pub data Kind : Type 0 where
  local source priority : Kind

pub record WatchLoop : Type 0 where
  pub kind : Kind
  -- whether its context is done
  pub canceled : Bool

abbrev pub ChangeHandler : Type 0
ChangeHandler = Gateway → Bool

-- The loader with its handlers, whether watchCancel is set, the goroutines, and the environment of
-- the process.
pub record Watching : Type 0 where
  pub loader : FileLoader
  pub handlers : List ChangeHandler
  pub closed : Bool
  pub watch_cancel : Bool
  pub goroutines : List WatchLoop
  pub env : Map Text

-- What a look for changes meets: the order of a map, decodeConfig, and the sums of the priority
-- files, when they can be read.
pub record Reading : Type 0 where
  pub range : Map EnvValue → Map EnvValue
  pub decode : Text → Option Gateway
  pub priority_hash : Option (Map Text)

-- FileLoader.Load: the last known-good snapshot, decoded.
abbrev pub load_gateway : (Text → Option Gateway) → FileLoader → Option Gateway
load_gateway decode f = decode f.config_data

abbrev pub opt_eq : Option Text → Text → Bool
opt_eq none v = false
opt_eq (some w) v = text_eq w v

-- Every entry of the first map stands in the second one.
unfoldable pub covers : Map Text → Map Text → Bool
unfolding lookup text_eq
covers [] other = true
covers ((k, v) ∷ m) other = opt_eq (lookup k other) v && covers m other

-- reflect.DeepEqual of maps.
unfoldable pub same_hash : Map Text → Map Text → Bool
unfolding covers
same_hash a b = (length a == length b) && covers a b

-- changed; the sums stand for the data here.
unfoldable pub is_changed : FileLoader → Text → Map Text → Bool
unfolding text_eq same_hash
is_changed f content hash =
    not (text_eq content f.config_data) || not (same_hash hash f.priority_config_hash)

unfoldable pub reload : Reading → Text → Map Text → Watching → Watching
reload r content hash w =
    let (f, (env, ok)) = execute_loader r.range r.decode w.handlers content hash w.loader w.env in
    record w { loader = f; env = env }

unfoldable pub reload_if : Bool → Reading → Text → Map Text → Watching → Watching
unfolding reload
reload_if false r content hash w = w
reload_if true r content hash w = reload r content hash w

unfoldable pub reload_changed : Reading → Text → Option (Map Text) → Watching → Watching
unfolding reload_if is_changed
reload_changed r content none w = w
reload_changed r content (some hash) w =
    reload_if (is_changed w.loader content hash) r content hash w

-- One tick of watchLocal, with the data that the source loads.
unfoldable pub local_tick : Option Text → Reading → Watching → Watching
unfolding reload_changed
local_tick none r w = w
local_tick (some content) r w = reload_changed r content r.priority_hash w

-- One event of watchSource.
unfoldable pub source_event :
    (err : Option Text) (deleted : Bool) (value : Text) → Reading → Watching → Watching
unfolding reload_changed
source_event (some e) deleted value r w = w
source_event none true value r w = w
source_event none false value r w = reload_changed r value r.priority_hash w

unfoldable pub priority_changed : Reading → Option (Map Text) → Watching → Watching
unfolding reload_if same_hash
priority_changed r none w = w
priority_changed r (some hash) w =
    reload_if (not (same_hash hash w.loader.priority_config_hash)) r w.loader.config_data hash w

-- One tick of watchPriority.
unfoldable pub priority_tick : Reading → Watching → Watching
unfolding priority_changed
priority_tick r w = priority_changed r r.priority_hash w

abbrev pub started : Kind → WatchLoop
started kind = record { kind = kind; canceled = false }

-- The goroutines of a source of files, or of another one with a priority directory or without.
unfoldable pub loops_of : (is_file has_priority : Bool) → List WatchLoop
loops_of true has_priority = started Kind.local ∷ []
loops_of false true = started Kind.source ∷ started Kind.priority ∷ []
loops_of false false = started Kind.source ∷ []

abbrev pub cancel_goroutine : WatchLoop → WatchLoop
cancel_goroutine g = record g { canceled = true }

abbrev pub same_kind : Kind → Kind → Bool
same_kind Kind.local Kind.local = true
same_kind Kind.source Kind.source = true
same_kind Kind.priority Kind.priority = true
same_kind a b = false

-- A goroutine of the kind is there. One that is canceled may still see its ticker first.
abbrev pub runs : Kind → List WatchLoop → Bool
runs kind gs = any (λ g. same_kind kind g.kind) gs

abbrev pub is_no_source : WatchLoop → Bool
is_no_source g = not (same_kind Kind.source g.kind)

module _ (is_file has_priority : Bool) where
  unfoldable pub start_watching : (watch_cancel : Bool) → Watching → Watching
  unfolding loops_of
  start_watching true w = w
  start_watching false w = record w {
    watch_cancel = true;
    goroutines = loops_of is_file has_priority ++ w.goroutines;
  }

  unfoldable pub add_handler : (closed : Bool) → ChangeHandler → Watching → Watching
  unfolding start_watching
  add_handler true fn w = w
  add_handler false fn w =
      start_watching w.watch_cancel (record w { handlers = w.handlers ++ (fn ∷ []) })

  -- Watch
  unfoldable pub watch_handler : ChangeHandler → Watching → Watching
  unfolding add_handler
  watch_handler fn w = add_handler w.closed fn w

  unfoldable pub stop_watching : (watch_cancel : Bool) → Watching → Watching
  stop_watching false w = record w { closed = true }
  stop_watching true w = record w {
    closed = true;
    watch_cancel = false;
    goroutines = map cancel_goroutine w.goroutines;
  }

  -- Close
  unfoldable pub close_loader : Watching → Watching
  unfolding stop_watching
  close_loader w = stop_watching w.watch_cancel w

  -- What happens to a loader: calls of Watch and Close, and the looks of its goroutines for
  -- changes. Those of a kind whose context is done return, and the one that watches the source also
  -- returns when the source's Watch does, with an error or because it does not support it.
  pub data LoaderAction : Type 0 where
    watches : ChangeHandler → LoaderAction
    closes : LoaderAction
    ticks : Option Text → Reading → LoaderAction
    sends : Event → Reading → LoaderAction
    ticks_priority : Reading → LoaderAction
    returns : Kind → LoaderAction
    source_ends : LoaderAction

  unfoldable pub while_runs : Kind → Watching → Watching → Watching
  unfolding any
  while_runs kind w next = if runs kind w.goroutines then next else w

  unfoldable pub act : LoaderAction → Watching → Watching
  unfolding watch_handler close_loader local_tick source_event priority_tick while_runs select
  act (LoaderAction.watches fn) w = watch_handler fn w
  act LoaderAction.closes w = close_loader w
  act (LoaderAction.ticks content r) w = while_runs Kind.local w (local_tick content r w)
  act (LoaderAction.sends e r) w =
      while_runs Kind.source w (source_event e.err e.deleted e.value r w)
  act (LoaderAction.ticks_priority r) w = while_runs Kind.priority w (priority_tick r w)
  act (LoaderAction.returns kind) w = record w {
    goroutines = select (λ g. not (g.canceled && same_kind kind g.kind)) w.goroutines;
  }
  act LoaderAction.source_ends w = record w { goroutines = select is_no_source w.goroutines }

  unfoldable pub act_all : List LoaderAction → Watching → Watching
  unfolding act
  act_all [] w = w
  act_all (a ∷ actions) w = act_all actions (act a w)
