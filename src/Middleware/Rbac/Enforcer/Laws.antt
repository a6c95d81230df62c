-- ===== src/Middleware/Rbac/Enforcer/Laws.antt =====
-- That the enforcer of middleware/rbac/rbac.go is the one of the files on the disk.
use ecommerce_gateway.Common.{
  ◌≡◌, ◌∙◌, sym, ap, refl, arith, Bool, true, false, ◌||◌, Option, none, some, ◌⊎◌, inl, inr, List,
  Text, Map, lookup, All, text_eq, text_eq_refl, if◌then◌else◌,
}
use mathlib.Core.Path.{subst}
use ecommerce_gateway.Loader.Source.{Readers, Source, Event}
use ecommerce_gateway.Loader.Files.{Files, Faults}
use ecommerce_gateway.Loader.Watch.{Io, World, SyncError, handle_all}
use ecommerce_gateway.Loader.Watch.LastGood.{Good, Calm, reports}
use ecommerce_gateway.Loader.Watch.Synced.{sync_file-synced, sync_file-other}
use ecommerce_gateway.Loader.Watch.Runtime.{swap, Unread, handle_all-Agrees}
use ecommerce_gateway.Middleware.Rbac.Enforcer.{
  Casbin, policy_file, model_file, validate_file_content, enforcer_of, to_text, build_enforcer,
  initialize_enforcer, sync_model, sync_essential_files, InitError, Rbac, after_initialize,
  after_sync, unless_initialized, init_enforcer,
}

-- The files that an enforcer is made of.
abbrev pub is_read : Map Text → Text → Bool
is_read env p = text_eq (model_file env) p || text_eq (policy_file env) p

module _ {ℓ κ} {M : Type ℓ} {E : Type κ} (casbin : Casbin M E) (env : Map Text) where
  build_enforcer-respects :
      (f g : Files)
      → ((p : Text) → is_read env p ≡ true → lookup p f ≡ lookup p g)
      → build_enforcer casbin (model_file env) (policy_file env) f
        ≡ build_enforcer casbin (model_file env) (policy_file env) g
  unfolding build_enforcer
  build_enforcer-respects f g same =
      ap (λ o. to_text casbin (enforcer_of casbin o (lookup (policy_file env) f)))
        (same (model_file env) (ground (arith, text_eq_refl (model_file env))))
      ∙ ap (λ o. to_text casbin (enforcer_of casbin (lookup (model_file env) g) o))
          (same (policy_file env) (ground (arith, text_eq_refl (policy_file env))))

  -- The temporary files of the first synchronisation are others than the two files, which differ.
  abbrev pub Distinct : (policy_io model_io : Faults) → Type 0
  Distinct policy_io model_io =
      (text_eq (model_file env) (policy_file env) ≡ false)
      × (text_eq policy_io.temporary (policy_file env) ≡ false)
      × (text_eq model_io.temporary (policy_file env) ≡ false)
      × (text_eq model_io.temporary (model_file env) ≡ false)

  abbrev pub BothGood : Files → Type 0
  BothGood files =
      Good (some validate_file_content) (lookup (policy_file env) files)
      × Good (some validate_file_content) (lookup (model_file env) files)

  sync_model-Good :
      (readers : Readers) (source : Source) (policy_io model_io : Faults)
      (r : Option SyncError × Files)
      → Distinct policy_io model_io
      → (r.0 ≡ none → Good (some validate_file_content) (lookup (policy_file env) r.1))
      → (sync_model readers source env model_io r).0 ≡ none
      → BothGood (sync_model readers source env model_io r).1
  unfolding sync_model
  sync_model-Good readers source policy_io model_io (some e, files) distinct first synced = cc
  sync_model-Good readers source policy_io model_io (none, files) distinct first synced =
      let valid = some validate_file_content in
      let (apart, policy_fresh, policy_unread, model_fresh) = distinct in
      (
        subst (Good valid)
            (sym (
              sync_file-other valid (model_file env) readers model_io source _ files
                (policy_file env) policy_unread apart))
            (first refl),
        sync_file-synced valid (model_file env) readers model_io source _ files model_fresh synced,
      )

  sync_essential_files-Good :
      (readers : Readers) (source : Source) (policy_io model_io : Faults) (files : Files)
      → Distinct policy_io model_io
      → (sync_essential_files readers source env policy_io model_io files).0 ≡ none
      → BothGood (sync_essential_files readers source env policy_io model_io files).1
  unfolding sync_essential_files
  sync_essential_files-Good readers source policy_io model_io files distinct synced =
      let (apart, policy_fresh, policy_unread, model_fresh) = distinct in
      sync_model-Good readers source policy_io model_io _ distinct
        (sync_file-synced (some validate_file_content) (policy_file env) readers policy_io source _
          files policy_fresh)
        synced

  after_initialize-none :
      (s : Rbac E) (m : Text ⊎ Option E)
      → (after_initialize casbin s (swap s.enforcer m)).0 ≡ none
      → (m ≡ inr (after_initialize casbin s (swap s.enforcer m)).1.enforcer)
        × ((after_initialize casbin s (swap s.enforcer m)).1.files ≡ s.files)
  unfolding after_initialize swap
  after_initialize-none s (inl e) h = cc
  after_initialize-none s (inr built) h = (refl, refl)

  abbrev pub Built : Rbac E → Type κ
  Built s = build_enforcer casbin (model_file env) (policy_file env) s.files ≡ inr s.enforcer

  after_sync-none :
      (s : Rbac E) (r : Option SyncError × Files)
      → (after_sync casbin env s r).0 ≡ none
      → (r.0 ≡ none)
        × ((after_sync casbin env s r).1.files ≡ r.1)
        × Built (after_sync casbin env s r).1
  unfolding after_sync initialize_enforcer
  after_sync-none s (some e, files) h = cc
  after_sync-none s (none, files) h =
      let start = record s { files = files } in
      let (built, same) = after_initialize-none start _ h in
      (refl, same, ap (build_enforcer casbin (model_file env) (policy_file env)) same ∙ built)

  synced-ready :
      (s : Rbac E) (r : Option SyncError × Files)
      → (r.0 ≡ none → BothGood r.1)
      → (after_sync casbin env s r).0 ≡ none
      → BothGood (after_sync casbin env s r).1.files × Built (after_sync casbin env s r).1
  synced-ready s r good done =
      let (synced, same, built) = after_sync-none s r done in
      (subst BothGood (sym same) (good synced), built)

  unless_initialized-holds :
      (P : Option InitError × Rbac E → Type κ) (initialized : Bool) (s : Rbac E)
      (next : Option InitError × Rbac E)
      → initialized ≡ false
      → P next
      → P (unless_initialized casbin initialized none s next)
  unfolding unless_initialized
  unless_initialized-holds P true s next fresh h = ground (arith, fresh)
  unless_initialized-holds P false s next fresh h = h

  init_enforcer-ready :
      (readers : Readers) (source : Source) (policy_io model_io : Faults) (s : Rbac E)
      → Distinct policy_io model_io
      → s.initialized ≡ false
      → (init_enforcer casbin readers source env none policy_io model_io s).0 ≡ none
      → BothGood (init_enforcer casbin readers source env none policy_io model_io s).1.files
        × Built (init_enforcer casbin readers source env none policy_io model_io s).1
  unfolding init_enforcer
  init_enforcer-ready readers source policy_io model_io s distinct fresh done =
      unless_initialized-holds (λ r. r.0 ≡ none → BothGood r.1.files × Built r.1) s.initialized s _
        fresh
        (synced-ready s (sync_essential_files readers source env policy_io model_io s.files)
          (sync_essential_files-Good readers source policy_io model_io s.files distinct))
        done

  abbrev pub watched : (on_model : Bool) → Text
  watched on_model = if on_model then model_file env else policy_file env

  abbrev pub world_of : Rbac E → World (Option E)
  world_of s = record { files = s.files; runtime = s.enforcer }

  -- The watch that setupWatchers starts on one of the two files.
  abbrev pub watch_file :
      (on_model : Bool) → List (Event × Io) → World (Option E) → World (Option E)
  watch_file on_model =
      handle_all (some (initialize_enforcer casbin (model_file env) (policy_file env)))
        (some validate_file_content) (watched on_model)

  watched-Good :
      (on_model : Bool) (files : Files)
      → BothGood files
      → Good (some validate_file_content) (lookup (watched on_model) files)
  watched-Good true files good = good.1
  watched-Good false files good = good.0

  -- When InitEnforcer has returned no error, on a package that was not initialized, the enforcer
  -- in use is the one that the model and the policy file on the disk build, and it stays so behind
  -- any events of the watch on either file, as long as no update that it refuses is stuck there.
  -- The temporary files are others than the two files.
  pub init_enforcer-Built :
      (readers : Readers) (source : Source) (policy_io model_io : Faults) (s : Rbac E)
      (on_model : Bool) (events : List (Event × Io))
      → Distinct policy_io model_io
      → s.initialized ≡ false
      → (init_enforcer casbin readers source env none policy_io model_io s).0 ≡ none
      → All (λ e. Unread (is_read env) (watched on_model) e.1) events
      → Calm (
          reports
            (some (initialize_enforcer casbin (model_file env) (policy_file env)))
            (some validate_file_content)
            (watched on_model)
            events
            (world_of (init_enforcer casbin readers source env none policy_io model_io s).1))
      → build_enforcer casbin
          (model_file env)
          (policy_file env)
          (watch_file on_model events
            (world_of (init_enforcer casbin readers source env none policy_io model_io s).1)).files
        ≡ inr
            (watch_file on_model events (
              world_of
                (init_enforcer casbin readers source env none policy_io model_io s).1)).runtime
  unfolding initialize_enforcer
  init_enforcer-Built readers source policy_io model_io s on_model events distinct fresh done unread
        calm =
      let (good, built) =
        init_enforcer-ready readers source policy_io model_io s distinct fresh done in
      handle_all-Agrees (build_enforcer casbin (model_file env) (policy_file env)) (is_read env)
        build_enforcer-respects (some validate_file_content) (watched on_model) events _ unread
        (watched-Good on_model _ good) built calm
