-- ===== src/Loader/Watch/LastGood.antt =====
-- The file that SyncFile and WatchFile of pkg/loader/source.go keep, as a register of the last
-- known-good contents.
use ecommerce_gateway.Common.{
  ◌≡◌, ◌∙◌, sym, ap, refl, false, Option, none, some, List, [], ◌∷◌, Text, lookup, All,
}
use mathlib.Core.Path.{subst}
use native.Mathlib.Nat.{mod-mod}
use ecommerce_gateway.Loader.Source.{Event}
use ecommerce_gateway.Loader.Files.{Files, Validate, replace_file, mode_of, Snapshot}
use ecommerce_gateway.Loader.Files.Laws.{replace_file-Validated, Restorable, Validated}
use ecommerce_gateway.Loader.Watch.{WatchError, Io, World, OnChange, handle, handle_all}
use ecommerce_gateway.Loader.Watch.Laws.{Apart, is_stuck, last_good, handle-Lands, handle-none}

-- A file that the validation has let pass, under the name of a temporary file.
abbrev pub Good : Validate → Snapshot → Type 0
Good validate none = Unit
Good validate (some f) = Restorable (some f) × ((temporary : Text) × Validated validate temporary f)

pub Good-Restorable : (validate : Validate) (s : Snapshot) → Good validate s → Restorable s
Good-Restorable validate none h = tt
Good-Restorable validate (some f) h = h.0

-- What a watch has reported: the error of each event and the value that it brought.
abbrev pub Reports : Type 0
Reports = List (Option WatchError × Text)

-- The register over the reports.
abbrev pub replay : Reports → Snapshot → Snapshot
replay [] s = s
replay ((err, value) ∷ rest) s = replay rest (last_good err value s)

-- No event left an update that onChange refused and that could not be taken out again.
abbrev pub Calm : Reports → Type 0
Calm = All (λ r. is_stuck r.0 ≡ false)

module _ {ℓ} {R : Type ℓ} (on_change : OnChange R) (validate : Validate) (target : Text) where
  abbrev pub reports : List (Event × Io) → World R → Reports
  reports [] w = []
  reports ((event, io) ∷ events) w =
      let (err, after) = handle on_change validate target (event, io) w in
      (err, event.value) ∷ reports events after

  last_good-Good :
      (err : Option WatchError) (io : Io) (value : Text) (files : Files)
      → (err ≡ none → (replace_file io.replacing value target validate files).0 ≡ none)
      → Good validate (lookup target files)
      → Good validate (last_good err value (lookup target files))
  last_good-Good none io value files ok good =
      let (full, valid) =
        replace_file-Validated io.replacing value target validate files (ok refl) in
      ((full, mod-mod (mode_of (lookup target files)) 512), (io.replacing.temporary, valid))
  last_good-Good (some e) io value files ok good = good

  pub handle-Good :
      (event : Event) (io : Io) (w : World R)
      → Apart target io
      → Good validate (lookup target w.files)
      → is_stuck (handle on_change validate target (event, io) w).0 ≡ false
      → Good validate (lookup target (handle on_change validate target (event, io) w).1.files)
  handle-Good event io w apart good calm =
      let before = lookup target w.files in
      subst (Good validate)
        (sym (
          handle-Lands target on_change validate event io w apart
            (Good-Restorable validate before good) calm))
        (last_good-Good _ io event.value w.files (handle-none target on_change validate event io w)
          good)

  -- From a file that is absent or good, and as long as no update that onChange refuses is stuck in
  -- it, the file behind any events is the last value of those that were handled with no error, or
  -- the one it began with, and it is absent or good again.
  pub handle_all-replays :
      (events : List (Event × Io)) (w : World R)
      → All (λ e. Apart target e.1) events
      → Good validate (lookup target w.files)
      → Calm (reports events w)
      → (lookup target (handle_all on_change validate target events w).files
          ≡ replay (reports events w) (lookup target w.files))
        × Good validate (lookup target (handle_all on_change validate target events w).files)
  unfolding handle_all
  handle_all-replays [] w apart good calm = (refl, good)
  handle_all-replays ((event, io) ∷ events) w apart good calm =
      let before = lookup target w.files in
      let (err, after) = handle on_change validate target (event, io) w in
      let landed =
        handle-Lands target on_change validate event io w apart.0
          (Good-Restorable validate before good) calm.0 in
      let (same, end) =
        handle_all-replays events after apart.1 (handle-Good event io w apart.0 good calm.0)
          calm.1 in
      (same ∙ ap (replay (reports events after)) landed, end)
