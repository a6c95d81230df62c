-- ===== src/Loader/Watch.antt =====
-- SyncFile and WatchFile of pkg/loader/source.go: the first contents of a file, and the events that
-- change it while the gateway runs.
pub mod Laws
pub mod LastGood
pub mod Synced
pub mod Runtime
mod Tests
use ecommerce_gateway.Common.{
  Bool, true, false, Option, none, some, ◌⊎◌, inl, inr, List, [], ◌∷◌, Text, if◌then◌else◌,
}
use ecommerce_gateway.Loader.Source.{Readers, Source, SourceError, Event, load}
use ecommerce_gateway.Loader.Files.{
  Files, FileError, Faults, Validate, Snapshot, replace_file, snapshot_file, restore_file,
}

pub data SyncError : Type 0 where
  not_loaded : SourceError → SyncError
  not_replaced : FileError → SyncError

unfoldable pub sync_error : Option FileError → Option SyncError
sync_error none = none
sync_error (some e) = some (SyncError.not_replaced e)

unfoldable pub after_load :
    Faults → Text → Validate → Files → SourceError ⊎ Text → Option SyncError × Files
unfolding replace_file sync_error
after_load io target validate files (inl e) = (some (SyncError.not_loaded e), files)
after_load io target validate files (inr contents) =
    let (err, after) = replace_file io contents target validate files in (sync_error err, after)

-- SyncFile
unfoldable pub sync_file :
    Readers → Faults → Source → (key target : Text) → Validate → Files → Option SyncError × Files
unfolding load after_load
sync_file readers io source key target validate files =
    after_load io target validate files (load readers source key)

-- The errors that an event hands to onError.
pub data WatchError : Type 0 where
  event_failed : Text → WatchError
  key_deleted : WatchError
  file_failed : FileError → WatchError
  apply_failed : Text → WatchError
  restore_failed : WatchError → FileError → WatchError
  runtime_failed : WatchError → Text → WatchError

-- What the file operations of one event meet: Stat and ReadFile of the snapshot, the replacement,
-- and the restoration with its Remove.
pub record Io : Type 0 where
  pub stat : Option Text
  pub read : Option Text
  pub replacing : Faults
  pub restoring : Faults
  pub remove : Option Text

-- The files, and what onChange makes of them, of a type that the caller chooses.
pub record World {ℓ} (R : Type ℓ) : Type ℓ where
  pub files : Files
  pub runtime : R

-- onChange, which reads the files; nil is `none`.
abbrev pub OnChange {ℓ} : Type ℓ → Type ℓ
OnChange R = Option (Files → R → Option Text × R)

module _ {ℓ} {R : Type ℓ} where
  -- onChange behind a restoration, with the runtime that it made.
  unfoldable pub after_runtime : WatchError → Files → Option Text × R → WatchError × World R
  after_runtime err files (none, runtime) = (err, record { files = files; runtime = runtime })
  after_runtime err files (some e, runtime) =
      (WatchError.runtime_failed err e, record { files = files; runtime = runtime })

  unfoldable pub after_restore :
      (Files → R → Option Text × R)
      → WatchError
      → R
      → Option FileError × Files
      → WatchError × World R
  unfolding after_runtime
  after_restore change err runtime (some e, files) =
      (WatchError.restore_failed err e, record { files = files; runtime = runtime })
  after_restore change err runtime (none, files) = after_runtime err files (change files runtime)

  -- An update that onChange refuses: the file goes back, and onChange runs on it again.
  unfoldable pub after_apply :
      (Files → R → Option Text × R)
      → Io
      → Text
      → Snapshot
      → Files
      → Option Text × R
      → Option WatchError × World R
  unfolding after_restore restore_file
  after_apply change io target previous files (none, runtime) =
      (none, record { files = files; runtime = runtime })
  after_apply change io target previous files (some e, runtime) =
      let (err, w) =
        after_restore change (WatchError.apply_failed e) runtime
          (restore_file io.restoring io.remove target previous files) in
      (some err, w)

  -- What follows a replacement: onChange on the files as they are now.
  unfoldable pub after_replace :
      OnChange R → Io → Text → Snapshot → R → Option FileError × Files → Option WatchError × World R
  unfolding after_apply
  after_replace on_change io target previous runtime (some e, files) =
      (some (WatchError.file_failed e), record { files = files; runtime = runtime })
  after_replace none io target previous runtime (none, files) =
      (none, record { files = files; runtime = runtime })
  after_replace (some change) io target previous runtime (none, files) =
      after_apply change io target previous files (change files runtime)

  unfoldable pub after_snapshot :
      OnChange R
      → Validate
      → Io
      → Text
      → Text
      → World R
      → FileError ⊎ Snapshot
      → Option WatchError × World R
  unfolding after_replace replace_file
  after_snapshot on_change validate io target value w (inl e) = (some (WatchError.file_failed e), w)
  after_snapshot on_change validate io target value w (inr previous) =
      after_replace on_change io target previous w.runtime
        (replace_file io.replacing value target validate w.files)

  -- The default case of the handler: a value.
  unfoldable pub update_file :
      OnChange R → Validate → Io → Text → Text → World R → Option WatchError × World R
  unfolding snapshot_file after_snapshot
  update_file on_change validate io target value w =
      after_snapshot on_change validate io target value w
        (snapshot_file io.stat io.read target w.files)

  -- The cases of the handler, of which the last one is a value.
  unfoldable pub by_event :
      (err : Option Text) (deleted : Bool) (w : World R) (updated : Option WatchError × World R)
      → Option WatchError × World R
  by_event (some e) deleted w updated = (some (WatchError.event_failed e), w)
  by_event none true w updated = (some WatchError.key_deleted, w)
  by_event none false w updated = updated

  -- The handler that WatchFile gives to source.Watch, and the error that onError is called with.
  unfoldable pub handle :
      OnChange R → Validate → Text → (Event × Io) → World R → Option WatchError × World R
  unfolding update_file by_event
  handle on_change validate target (event, io) w =
      by_event event.err event.deleted w (update_file on_change validate io target event.value w)

  -- The events of a watch, one after the other.
  unfoldable pub handle_all : OnChange R → Validate → Text → List (Event × Io) → World R → World R
  unfolding handle
  handle_all on_change validate target [] w = w
  handle_all on_change validate target (e ∷ events) w =
      handle_all on_change validate target events (handle on_change validate target e w).1
