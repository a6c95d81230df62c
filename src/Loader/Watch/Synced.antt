-- ===== src/Loader/Watch/Synced.antt =====
-- What SyncFile of pkg/loader/source.go puts in place, and what a watch behind it keeps.
use ecommerce_gateway.Common.{
  ◌≡◌, ◌∙◌, sym, refl, false, Option, none, some, ◌⊎◌, inl, inr, Text, lookup, text_eq,
}
use mathlib.Core.Path.{subst}
use native.Mathlib.Nat.{mod-mod}
use ecommerce_gateway.Loader.Source.{Readers, Source, SourceError, load}
use ecommerce_gateway.Loader.Files.{Files, FileError, Faults, Validate, replace_file, mode_of}
use ecommerce_gateway.Loader.Files.Laws.{
  replace_file-atomic, untouched, replace_file-replaces, replace_file-Validated,
}
use ecommerce_gateway.Loader.Watch.{sync_file, sync_error, after_load}
use ecommerce_gateway.Loader.Watch.LastGood.{Good}

module _ (validate : Validate) (target : Text) where
  sync_error-none : (o : Option FileError) → sync_error o ≡ none → o ≡ none
  unfolding sync_error
  sync_error-none none h = refl
  sync_error-none (some e) h = cc

  after_load-Good :
      (io : Faults) (loaded : SourceError ⊎ Text) (files : Files)
      → text_eq io.temporary target ≡ false
      → (after_load io target validate files loaded).0 ≡ none
      → Good validate (lookup target (after_load io target validate files loaded).1)
  unfolding after_load
  after_load-Good io (inl e) files apart h = cc
  after_load-Good io (inr contents) files apart h =
      let replaced = sync_error-none (replace_file io contents target validate files).0 h in
      let (full, valid) = replace_file-Validated io contents target validate files replaced in
      subst (Good validate)
        (sym (replace_file-replaces io contents target validate files apart replaced))
        ((full, mod-mod (mode_of (lookup target files)) 512), (io.temporary, valid))

  pub sync_file-synced :
      (readers : Readers) (io : Faults) (source : Source) (key : Text) (files : Files)
      → text_eq io.temporary target ≡ false
      → (sync_file readers io source key target validate files).0 ≡ none
      → Good validate (lookup target (sync_file readers io source key target validate files).1)
  unfolding sync_file
  sync_file-synced readers io source key files fresh synced =
      after_load-Good io (load readers source key) files fresh synced

  after_load-other :
      (io : Faults) (read : SourceError ⊎ Text) (files : Files) (p : Text)
      → text_eq io.temporary p ≡ false
      → text_eq target p ≡ false
      → lookup p (after_load io target validate files read).1 ≡ lookup p files
  unfolding after_load
  after_load-other io (inl e) files p apart other = refl
  after_load-other io (inr contents) files p apart other =
      replace_file-atomic io contents target validate files p apart ∙ rw other (untouched _ _ _)

  pub sync_file-other :
      (readers : Readers) (io : Faults) (source : Source) (key : Text) (files : Files) (p : Text)
      → text_eq io.temporary p ≡ false
      → text_eq target p ≡ false
      → lookup p (sync_file readers io source key target validate files).1 ≡ lookup p files
  unfolding sync_file
  sync_file-other readers io source key files p apart other =
      after_load-other io (load readers source key) files p apart other
