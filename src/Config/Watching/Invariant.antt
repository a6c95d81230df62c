-- ===== src/Config/Watching/Invariant.antt =====
-- Which goroutines of config/config.go are alive: an invariant of all histories of a loader.
use ecommerce_gateway.Common.{
  ◌≡◌, Bool, true, false, not, ◌&&◌, ◌||◌, List, [], ◌∷◌, is_empty, select, if◌then◌else◌,
}
use ecommerce_gateway.Config.Watching.{WatchLoop, Watching, loops_of, LoaderAction, is_no_source}

-- The goroutines whose context is not done.
abbrev pub live : List WatchLoop → List WatchLoop
live gs = select (λ g. not g.canceled) gs

-- The goroutines that are there when the one that watches the source has gone, or has not.
abbrev pub without_source : (gone : Bool) → List WatchLoop → List WatchLoop
without_source true gs = select is_no_source gs
without_source false gs = gs

module _ (is_file has_priority : Bool) where
  -- The goroutines whose context is not done: while Watch has set its cancel function they are
  -- those that it starts once, but for the one that watches the source if that has gone, which it
  -- does only if it ended, and else there is none.
  abbrev pub Alive : (ended : Bool) → Watching → Type 0
  Alive ended w =
      (gone : Bool) × (gone && not ended ≡ false)
      × (live w.goroutines
          ≡ (if w.watch_cancel then without_source gone (loops_of is_file has_priority) else []))

  -- The goroutines are these, the cancel function is not set behind Close, and while it is set there
  -- is a handler to call.
  abbrev pub IsSound : (ended : Bool) → Watching → Type 0
  IsSound ended w =
      Alive ended w
      × (w.closed && w.watch_cancel ≡ false)
      × (w.watch_cancel && is_empty w.handlers ≡ false)

  abbrev pub ends_source : LoaderAction is_file has_priority → Bool
  ends_source LoaderAction.source_ends = true
  ends_source other = false

  -- Whether the source's Watch has ended behind the actions.
  abbrev pub has_ended : Bool → List (LoaderAction is_file has_priority) → Bool
  has_ended ended [] = ended
  has_ended ended (a ∷ actions) = has_ended (ends_source a || ended) actions
