-- ===== src/Loader/Watch/Laws.antt =====
-- That WatchFile of pkg/loader/source.go keeps the last known-good file.
use ecommerce_gateway.Common.{
  ◌≡◌, ◌∙◌, sym, ap, refl, Bool, true, false, not, ◌&&◌, Option, none, some, ◌⊎◌, Text, text_eq,
  text_eq_refl, lookup, is_some, if◌then◌else◌, inl, inr,
}
use mathlib.Core.Path.{subst}
use ecommerce_gateway.Loader.Source.{Event}
use ecommerce_gateway.Loader.Files.{
  file_of, Files, FileError, Validate, Result, perm, replace_file, mode_of, Snapshot, snapshot_file,
  restore_file, from_lookup,
}
use ecommerce_gateway.Loader.Files.Laws.{replace_file-atomic, Restorable, restore_file-restores}
use ecommerce_gateway.Loader.Watch.{
  WatchError, Io, World, OnChange, after_runtime, after_restore, after_apply, after_replace,
  after_snapshot, update_file, by_event, handle,
}

-- The temporary files of an event have names of their own.
abbrev pub Apart : Text → Io → Type 0
Apart target io =
    (text_eq io.replacing.temporary target ≡ false)
    × (text_eq io.restoring.temporary target ≡ false)

inr_snapshot : (a b : Snapshot) → Path (FileError ⊎ Snapshot) (inr a) (inr b) → a ≡ b
inr_snapshot a b h = cc

snapshot_of :
    (o : Snapshot) (read : Option Text) (s : Snapshot)
    → Restorable o
    → from_lookup read o ≡ inr s
    → s ≡ o
unfolding from_lookup
snapshot_of none read s ok h = cc
snapshot_of (some f) (some e) s ok h = cc
snapshot_of (some f) none s ok h =
    sym (inr_snapshot _ s h) ∙ ap (λ m. some (record f { mode = m })) ok.1

pub snapshot_file-Restorable :
    (stat read : Option Text) (target : Text) (files : Files) (s : Snapshot)
    → Restorable (lookup target files)
    → snapshot_file stat read target files ≡ inr s
    → s ≡ lookup target files
unfolding snapshot_file from_lookup
snapshot_file-Restorable (some e) read target files s ok h = cc
snapshot_file-Restorable none read target files s ok h =
    snapshot_of (lookup target files) read s ok h

-- The update is in the file and could not be taken out of it.
abbrev pub is_stuck : Option WatchError → Bool
is_stuck none = false
is_stuck (some (WatchError.restore_failed e f)) = true
is_stuck (some e) = false

-- The last known-good file behind an event: the new one unless an error was reported.
abbrev pub last_good : Option WatchError → Text → Snapshot → Snapshot
last_good none value s = some (file_of value (perm (mode_of s)))
last_good (some e) value s = s

when_none :
    (o : Option FileError) (new old : Snapshot)
    → (if not (is_some o) && true then new else old) ≡ (if not (is_some o) then new else old)
when_none none new old = refl
when_none (some e) new old = refl

module _ {ℓ} {R : Type ℓ} (target : Text) where
  -- The target behind a step whose error is `err`.
  abbrev pub Lands : Text → Snapshot → Option WatchError × World R → Type 0
  Lands value before r = is_stuck r.0 ≡ false → lookup target r.1.files ≡ last_good r.0 value before

  after_runtime-files :
      (err : WatchError) (files : Files) (r : Option Text × R)
      → (after_runtime err files r).1.files ≡ files
  unfolding after_runtime
  after_runtime-files err files (none, runtime) = refl
  after_runtime-files err files (some e, runtime) = refl

  after_restore-restores :
      (change : Files → R → Option Text × R) (previous : Snapshot) (e : Text) (runtime : R)
      (r : Result)
      → (r.0 ≡ none → lookup target r.1 ≡ previous)
      → is_stuck (some (after_restore change (WatchError.apply_failed e) runtime r).0) ≡ false
      → lookup target (after_restore change (WatchError.apply_failed e) runtime r).1.files
        ≡ previous
  unfolding after_restore
  after_restore-restores change previous e runtime (some f, files) back calm = cc
  after_restore-restores change previous e runtime (none, files) back calm =
      ap (lookup target)
        (after_runtime-files (WatchError.apply_failed e) files (change files runtime))
      ∙ back refl

  module _ (io : Io) (apart : Apart target io) (value : Text) (before : Snapshot)
      (ok : Restorable before) where
    after_apply-Lands :
        (change : Files → R → Option Text × R) (files : Files) (r : Option Text × R)
        → lookup target files ≡ last_good none value before
        → Lands value before (after_apply change io target before files r)
    unfolding after_apply
    after_apply-Lands change files (none, runtime) new calm = new
    after_apply-Lands change files (some e, runtime) new calm =
        after_restore-restores change before e runtime
          (restore_file io.restoring io.remove target before files)
          (restore_file-restores io.restoring io.remove target before files apart.1 ok) calm

    after_replace-Lands :
        (on_change : OnChange R) (runtime : R) (r : Result)
        → lookup target r.1 ≡ (if not (is_some r.0) then last_good none value before else before)
        → Lands value before (after_replace on_change io target before runtime r)
    unfolding after_replace
    after_replace-Lands on_change runtime (some e, files) h calm = h
    after_replace-Lands none runtime (none, files) h calm = h
    after_replace-Lands (some change) runtime (none, files) h calm =
        after_apply-Lands change files (change files runtime) h calm

    after_snapshot-Lands :
        (on_change : OnChange R) (validate : Validate) (w : World R)
        (snapshot : FileError ⊎ Snapshot)
        → lookup target w.files ≡ before
        → ((s : Snapshot) → snapshot ≡ inr s → s ≡ before)
        → Lands value before (after_snapshot on_change validate io target value w snapshot)
    unfolding after_snapshot
    after_snapshot-Lands on_change validate w (inl e) here same = λ calm. here
    after_snapshot-Lands on_change validate w (inr previous) here same =
        subst
          (λ s. Lands value before (
            after_replace on_change io target s w.runtime
              (replace_file io.replacing value target validate w.files)))
          (sym (same previous refl))
          (after_replace-Lands on_change w.runtime
            (replace_file io.replacing value target validate w.files)
            (replace_file-atomic io.replacing value target validate w.files target apart.0
              ∙ rw (text_eq_refl target, here) (when_none _ (last_good none value before) before)))

    update_file-Lands :
        (on_change : OnChange R) (validate : Validate) (w : World R)
        → lookup target w.files ≡ before
        → Lands value before (update_file on_change validate io target value w)
    unfolding update_file
    update_file-Lands on_change validate w here =
        after_snapshot-Lands on_change validate w (snapshot_file io.stat io.read target w.files)
          here
          (λ s found.
            snapshot_file-Restorable io.stat io.read target w.files s
              (subst Restorable (sym here) ok) found
            ∙ here)

    by_event-Lands :
        (err : Option Text) (deleted : Bool) (w : World R) (updated : Option WatchError × World R)
        → lookup target w.files ≡ before
        → Lands value before updated
        → Lands value before (by_event err deleted w updated)
    unfolding by_event
    by_event-Lands (some e) deleted w updated here new = λ calm. here
    by_event-Lands none true w updated here new = λ calm. here
    by_event-Lands none false w updated here new = new

  pub handle-Lands :
      (on_change : OnChange R) (validate : Validate) (event : Event) (io : Io) (w : World R)
      → Apart target io
      → Restorable (lookup target w.files)
      → Lands event.value (lookup target w.files) (handle on_change validate target (event, io) w)
  unfolding handle
  handle-Lands on_change validate event io w apart ok =
      let before = lookup target w.files in
      by_event-Lands io apart event.value before ok event.err event.deleted w _ refl
        (update_file-Lands io apart event.value before ok on_change validate w refl)

  after_replace-none :
      (on_change : OnChange R) (io : Io) (previous : Snapshot) (runtime : R) (r : Result)
      → (after_replace on_change io target previous runtime r).0 ≡ none
      → r.0 ≡ none
  unfolding after_replace
  after_replace-none on_change io previous runtime (some e, files) h = cc
  after_replace-none on_change io previous runtime (none, files) h = refl

  after_snapshot-none :
      (on_change : OnChange R) (validate : Validate) (io : Io) (value : Text) (w : World R)
      (snapshot : FileError ⊎ Snapshot)
      → (after_snapshot on_change validate io target value w snapshot).0 ≡ none
      → (replace_file io.replacing value target validate w.files).0 ≡ none
  unfolding after_snapshot
  after_snapshot-none on_change validate io value w (inl e) h = cc
  after_snapshot-none on_change validate io value w (inr previous) h =
      after_replace-none on_change io previous w.runtime _ h

  by_event-none :
      (err : Option Text) (deleted : Bool) (w : World R) (updated : Option WatchError × World R)
      → (by_event err deleted w updated).0 ≡ none
      → updated.0 ≡ none
  unfolding by_event
  by_event-none (some e) deleted w updated h = cc
  by_event-none none true w updated h = cc
  by_event-none none false w updated h = h

  pub handle-none :
      (on_change : OnChange R) (validate : Validate) (event : Event) (io : Io) (w : World R)
      → (handle on_change validate target (event, io) w).0 ≡ none
      → (replace_file io.replacing event.value target validate w.files).0 ≡ none
  unfolding handle update_file
  handle-none on_change validate event io w h =
      after_snapshot-none on_change validate io event.value w _
        (by_event-none event.err event.deleted w _ h)
