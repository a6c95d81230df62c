-- ===== src/Config/Watching/Laws.antt =====
-- Which configuration config/config.go keeps while it watches for changes.
use ecommerce_gateway.Common.{
  ◌≡◌, sym, refl, Bool, true, false, Option, none, some, List, [], ◌∷◌, Text, Map, is_some, All,
  if◌then◌else◌, inl, inr,
}
use mathlib.Core.Path.{subst}
use ecommerce_gateway.Config.Types.{Gateway}
use ecommerce_gateway.Config.Reload.Laws.{execute_loader-data}
use ecommerce_gateway.Config.Watching.{
  load_gateway, ChangeHandler, Watching, Reading, reload, reload_if, reload_changed, local_tick,
  source_event, priority_changed, priority_tick, start_watching, add_handler, watch_handler,
  stop_watching, close_loader, LoaderAction, while_runs, act, act_all,
}

-- The data that the loader keeps decode.
abbrev pub Decodes : (Text → Option Gateway) → Watching → Type 0
Decodes decode w = is_some (load_gateway decode w.loader) ≡ true

module _ (decode : Text → Option Gateway) where
  -- The reading decodes as `decode` does.
  abbrev pub ReadsBy : Reading → Type 0
  ReadsBy r = r.decode ≡ decode

  reload-Decodes :
      (r : Reading) (content : Text) (hash : Map Text) (w : Watching)
      → ReadsBy r
      → Decodes decode w
      → Decodes decode (reload r content hash w)
  unfolding reload
  reload-Decodes r content hash w same h =
      elim (execute_loader-data r.range r.decode w.handlers content hash w.loader w.env) [
        | inl kept ↦ subst (λ f. is_some (decode f.config_data) ≡ true) (sym kept) h
        | inr (new, (c, decoded)) ↦
            subst (λ content'. is_some (decode content') ≡ true) (sym new)
              (subst (λ d. is_some (d content) ≡ true) same (rw decoded refl))
      ]

  reload_if-Decodes :
      (b : Bool) (r : Reading) (content : Text) (hash : Map Text) (w : Watching)
      → ReadsBy r
      → Decodes decode w
      → Decodes decode (reload_if b r content hash w)
  unfolding reload_if
  reload_if-Decodes true r content hash w same h = reload-Decodes r content hash w same h
  reload_if-Decodes false r content hash w same h = h

  reload_changed-Decodes :
      (r : Reading) (content : Text) (hash : Option (Map Text)) (w : Watching)
      → ReadsBy r
      → Decodes decode w
      → Decodes decode (reload_changed r content hash w)
  unfolding reload_changed
  reload_changed-Decodes r content none w same h = h
  reload_changed-Decodes r content (some hash) w same h =
      reload_if-Decodes _ r content hash w same h

  local_tick-Decodes :
      (content : Option Text) (r : Reading) (w : Watching)
      → ReadsBy r
      → Decodes decode w
      → Decodes decode (local_tick content r w)
  unfolding local_tick
  local_tick-Decodes none r w same h = h
  local_tick-Decodes (some content) r w same h =
      reload_changed-Decodes r content r.priority_hash w same h

  source_event-Decodes :
      (err : Option Text) (deleted : Bool) (value : Text) (r : Reading) (w : Watching)
      → ReadsBy r
      → Decodes decode w
      → Decodes decode (source_event err deleted value r w)
  unfolding source_event
  source_event-Decodes (some e) deleted value r w same h = h
  source_event-Decodes none true value r w same h = h
  source_event-Decodes none false value r w same h =
      reload_changed-Decodes r value r.priority_hash w same h

  priority_changed-Decodes :
      (r : Reading) (hash : Option (Map Text)) (w : Watching)
      → ReadsBy r
      → Decodes decode w
      → Decodes decode (priority_changed r hash w)
  unfolding priority_changed
  priority_changed-Decodes r none w same h = h
  priority_changed-Decodes r (some hash) w same h =
      reload_if-Decodes _ r w.loader.config_data hash w same h

  add_handler-Decodes :
      (is_file has_priority closed cancel : Bool) (fn : ChangeHandler) (w : Watching)
      → w.watch_cancel ≡ cancel
      → Decodes decode w
      → Decodes decode (add_handler is_file has_priority closed fn w)
  unfolding add_handler start_watching
  add_handler-Decodes is_file has_priority true cancel fn w same h = h
  add_handler-Decodes is_file has_priority false true fn w same h = rw same h
  add_handler-Decodes is_file has_priority false false fn w same h = rw same h

  stop_watching-Decodes :
      (is_file has_priority b : Bool) (w : Watching)
      → Decodes decode w
      → Decodes decode (stop_watching is_file has_priority b w)
  unfolding stop_watching
  stop_watching-Decodes is_file has_priority true w h = h
  stop_watching-Decodes is_file has_priority false w h = h

  if-Decodes :
      (b : Bool) (v w : Watching)
      → Decodes decode v
      → Decodes decode w
      → Decodes decode (if b then v else w)
  if-Decodes true v w hv hw = hv
  if-Decodes false v w hv hw = hw

  module _ (is_file has_priority : Bool) where
    -- The reading of an action decodes as `decode` does.
    abbrev pub ActsBy : LoaderAction is_file has_priority → Type 0
    ActsBy (LoaderAction.ticks content r) = ReadsBy r
    ActsBy (LoaderAction.sends e r) = ReadsBy r
    ActsBy (LoaderAction.ticks_priority r) = ReadsBy r
    ActsBy a = Unit

    act-Decodes :
        (a : LoaderAction is_file has_priority) (w : Watching)
        → ActsBy a
        → Decodes decode w
        → Decodes decode (act is_file has_priority a w)
    unfolding act watch_handler close_loader priority_tick while_runs
    act-Decodes (LoaderAction.watches fn) w same h =
        add_handler-Decodes is_file has_priority w.closed w.watch_cancel fn w refl h
    act-Decodes LoaderAction.closes w same h =
        stop_watching-Decodes is_file has_priority w.watch_cancel w h
    act-Decodes (LoaderAction.ticks content r) w same h =
        if-Decodes _ _ _ (local_tick-Decodes content r w same h) h
    act-Decodes (LoaderAction.sends e r) w same h =
        if-Decodes _ _ _ (source_event-Decodes e.err e.deleted e.value r w same h) h
    act-Decodes (LoaderAction.ticks_priority r) w same h =
        if-Decodes _ _ _ (priority_changed-Decodes r r.priority_hash w same h) h
    act-Decodes (LoaderAction.returns kind) w same h = h
    act-Decodes LoaderAction.source_ends w same h = h

    -- As long as the configuration is decoded in one way, the data that the loader keeps decode
    -- through all that happens to it, when they do at first: Load gives a configuration at any time.
    pub act_all-Decodes :
        (actions : List (LoaderAction is_file has_priority)) (w : Watching)
        → All ActsBy actions
        → Decodes decode w
        → Decodes decode (act_all is_file has_priority actions w)
    unfolding act_all
    act_all-Decodes [] w same h = h
    act_all-Decodes (a ∷ actions) w same h =
        act_all-Decodes actions (act is_file has_priority a w) same.1 (act-Decodes a w same.0 h)
