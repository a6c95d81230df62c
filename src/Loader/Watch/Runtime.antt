-- ===== src/Loader/Watch/Runtime.antt =====
-- The runtime that onChange builds from the files of a watch, in pkg/loader/source.go: what is in
-- use is what the files on the disk build.
use ecommerce_gateway.Common.{
  ◌≡◌, ◌∙◌, sym, refl, Bool, true, false, Option, none, some, ◌⊎◌, inl, inr, List, [], ◌∷◌, Text,
  lookup, All, Bool-cases, text_eq, text_eq_iff, is_some,
}
use mathlib.Core.Path.{subst}
use ecommerce_gateway.Loader.Source.{Event}
use ecommerce_gateway.Loader.Files.{
  Files, FileError, Validate, Result, replace_file, Snapshot, snapshot_file, restore_file,
}
use ecommerce_gateway.Loader.Files.Laws.{
  replace_file-atomic, Restorable, restore_file-restores, restore_file-other, untouched,
}
use ecommerce_gateway.Loader.Watch.{
  WatchError, Io, World, after_runtime, after_restore, after_apply, after_replace, after_snapshot,
  update_file, by_event, handle, handle_all,
}
use ecommerce_gateway.Loader.Watch.LastGood.{Good, Good-Restorable, Calm, reports, handle-Good}
use ecommerce_gateway.Loader.Watch.Laws.{Apart, is_stuck, snapshot_file-Restorable}

-- An onChange that puts what it builds into use, and leaves what is in use when that fails.
unfoldable pub swap {ℓ} : {R : Type ℓ} → R → Text ⊎ R → Option Text × R
swap runtime (inl e) = (some e, runtime)
swap runtime (inr built) = (none, built)

-- The temporary files of an event are none of those that are read, and not the target.
abbrev pub Unread : (reads : Text → Bool) (target : Text) → Io → Type 0
Unread reads target io =
    Apart target io
    × ((p : Text)
        → reads p ≡ true
        → (text_eq io.replacing.temporary p ≡ false) × (text_eq io.restoring.temporary p ≡ false))

module _ {ℓ} {R : Type ℓ} (make : Files → Text ⊎ R) (reads : Text → Bool)
    (respects : (f g : Files)
      → ((p : Text) → reads p ≡ true → lookup p f ≡ lookup p g)
      → make f ≡ make g)
    (validate : Validate) (target : Text) where
  -- onChange for `make`.
  abbrev pub rebuild : Files → R → Option Text × R
  rebuild files runtime = swap runtime (make files)

  abbrev pub Agrees : World R → Type ℓ
  Agrees w = make w.files ≡ inr w.runtime

  abbrev pub Same : Files → Files → Type 0
  Same f g = (p : Text) → reads p ≡ true → lookup p f ≡ lookup p g

  restored-Same :
      (io : Io) (before files : Files)
      → Unread reads target io
      → Restorable (lookup target before)
      → ((p : Text) → reads p ≡ true → text_eq target p ≡ false → lookup p files ≡ lookup p before)
      → (restore_file io.restoring io.remove target (lookup target before) files).0 ≡ none
      → Same (restore_file io.restoring io.remove target (lookup target before) files).1 before
  restored-Same io before files unread ok others done = λ p read.
      elim (Bool-cases (text_eq target p)) [
        | inl same ↦
            subst
              (λ q.
                lookup q (restore_file io.restoring io.remove target (lookup target before) files).1
                ≡ lookup q before)
              ((text_eq_iff target p).0 same)
              (restore_file-restores io.restoring io.remove target (lookup target before) files
                unread.0.1 ok done)
        | inr other ↦
            restore_file-other io.restoring io.remove target (lookup target before) files p
              (unread.1 p read).1 other
            ∙ others p read other
      ]

  after_runtime-Agrees :
      (err : WatchError) (files : Files) (runtime : R)
      → make files ≡ inr runtime
      → Agrees (after_runtime err files (rebuild files runtime)).1
  unfolding after_runtime swap
  after_runtime-Agrees err files runtime h =
      subst (λ m. Agrees (after_runtime err files (swap runtime m)).1) (sym h) h

  after_restore-Agrees :
      (before : Files) (e : Text) (runtime : R) (r : Result)
      → make before ≡ inr runtime
      → (r.0 ≡ none → Same r.1 before)
      → is_stuck (some (after_restore rebuild (WatchError.apply_failed e) runtime r).0) ≡ false
      → Agrees (after_restore rebuild (WatchError.apply_failed e) runtime r).1
  unfolding after_restore
  after_restore-Agrees before e runtime (some f, files) built back calm = cc
  after_restore-Agrees before e runtime (none, files) built back calm =
      after_runtime-Agrees (WatchError.apply_failed e) files runtime
        (respects files before (back refl) ∙ built)

  module _ (io : Io) (unread : Unread reads target io) (w : World R) (agrees : Agrees w)
      (ok : Restorable (lookup target w.files)) where
    after_apply-Agrees :
        (files : Files) (m : Text ⊎ R)
        → make files ≡ m
        → ((p : Text)
            → reads p ≡ true
            → text_eq target p ≡ false
            → lookup p files ≡ lookup p w.files)
        → is_stuck
            (after_apply rebuild io target (lookup target w.files) files (swap w.runtime m)).0
          ≡ false
        → Agrees (after_apply rebuild io target (lookup target w.files) files (swap w.runtime m)).1
    unfolding after_apply swap
    after_apply-Agrees files (inr built) h others calm = h
    after_apply-Agrees files (inl e) h others calm =
        after_restore-Agrees w.files e w.runtime _ agrees
          (restored-Same io w.files files unread ok others) calm

    after_replace-Agrees :
        (r : Result)
        → ((p : Text) → reads p ≡ true → is_some r.0 ≡ true → lookup p r.1 ≡ lookup p w.files)
        → ((p : Text) → reads p ≡ true → text_eq target p ≡ false → lookup p r.1 ≡ lookup p w.files)
        → is_stuck (after_replace (some rebuild) io target (lookup target w.files) w.runtime r).0
          ≡ false
        → Agrees (after_replace (some rebuild) io target (lookup target w.files) w.runtime r).1
    unfolding after_replace
    after_replace-Agrees (some e, files) kept others calm =
        respects files w.files (λ p read. kept p read refl) ∙ agrees
    after_replace-Agrees (none, files) kept others calm =
        after_apply-Agrees files (make files) refl others calm

    after_snapshot-Agrees :
        (value : Text) (snapshot : FileError ⊎ Snapshot)
        → ((s : Snapshot) → snapshot ≡ inr s → s ≡ lookup target w.files)
        → is_stuck (after_snapshot (some rebuild) validate io target value w snapshot).0 ≡ false
        → Agrees (after_snapshot (some rebuild) validate io target value w snapshot).1
    unfolding after_snapshot
    after_snapshot-Agrees value (inl e) same = λ calm. agrees
    after_snapshot-Agrees value (inr previous) same =
        subst
          (λ s.
            is_stuck
                (after_replace (some rebuild) io target s w.runtime
                  (replace_file io.replacing value target validate w.files)).0
              ≡ false
            → Agrees
                (after_replace (some rebuild) io target s w.runtime
                  (replace_file io.replacing value target validate w.files)).1)
          (sym (same previous refl))
          (after_replace-Agrees (replace_file io.replacing value target validate w.files)
            (λ p read failed.
              replace_file-atomic io.replacing value target validate w.files p (unread.1 p read).0
              ∙ rw failed refl)
            (λ p read other.
              replace_file-atomic io.replacing value target validate w.files p (unread.1 p read).0
              ∙ rw other (untouched _ _ _)))

    by_event-Agrees :
        (err : Option Text) (deleted : Bool) (updated : Option WatchError × World R)
        → (is_stuck updated.0 ≡ false → Agrees updated.1)
        → is_stuck (by_event err deleted w updated).0 ≡ false
        → Agrees (by_event err deleted w updated).1
    unfolding by_event
    by_event-Agrees (some e) deleted updated new calm = agrees
    by_event-Agrees none true updated new calm = agrees
    by_event-Agrees none false updated new calm = new calm

    -- An event leaves in use what the files build.
    handle-Agrees :
        (event : Event)
        → is_stuck (handle (some rebuild) validate target (event, io) w).0 ≡ false
        → Agrees (handle (some rebuild) validate target (event, io) w).1
    unfolding handle update_file
    handle-Agrees event = by_event-Agrees event.err event.deleted _ (
        after_snapshot-Agrees event.value (snapshot_file io.stat io.read target w.files)
          (λ s found. snapshot_file-Restorable io.stat io.read target w.files s ok found))

  -- When the files and what is in use agree, and the file is absent or good, they agree behind any
  -- events, as long as no update that onChange refuses is stuck in the file. The runtime is one
  -- that `make` builds from the files that it reads, none of which is a temporary file.
  pub handle_all-Agrees :
      (events : List (Event × Io)) (w : World R)
      → All (λ e. Unread reads target e.1) events
      → Good validate (lookup target w.files)
      → make w.files ≡ inr w.runtime
      → Calm (reports (some rebuild) validate target events w)
      → make (handle_all (some rebuild) validate target events w).files
        ≡ inr (handle_all (some rebuild) validate target events w).runtime
  unfolding handle_all
  handle_all-Agrees [] w unread good agrees calm = agrees
  handle_all-Agrees ((event, io) ∷ events) w unread good agrees calm =
      let ok = Good-Restorable validate (lookup target w.files) good in
      let after = (handle (some rebuild) validate target (event, io) w).1 in
      handle_all-Agrees events after unread.1
        (handle-Good (some rebuild) validate target event io w unread.0.0 good calm.0)
        (handle-Agrees io unread.0 w agrees ok event calm.0) calm.1
