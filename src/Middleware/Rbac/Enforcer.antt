-- ===== src/Middleware/Rbac/Enforcer.antt =====
-- How middleware/rbac/rbac.go comes to its enforcer: the files of the policies and of the model,
-- their first contents, and the enforcer that casbin makes of them.
pub mod Laws
mod Tests
use ecommerce_gateway.Common.{
  Bool, true, false, Option, none, some, ◌⊎◌, inl, inr, List, [], ◌∷◌, ◌++◌, Text, bytes, Map,
  lookup, is_empty, if◌then◌else◌,
}
use ecommerce_gateway.Errors.Codes.{
  Err, kratos, wrap, plain, err_file_content_empty, err_empty_file, err_auth_check_failed,
}
use ecommerce_gateway.Errors.Response.{error_text}
use ecommerce_gateway.Loader.Path.{join_path}
use ecommerce_gateway.Loader.Keys.{related_key}
use ecommerce_gateway.Loader.Source.{Readers, Source, main_key, getenv}
use ecommerce_gateway.Loader.Files.{File, Files, Faults, Validate}
use ecommerce_gateway.Loader.Watch.{SyncError, sync_file}
use ecommerce_gateway.Loader.Watch.Runtime.{swap}

-- The paths of the two files, and their names below the main key.
abbrev pub policies_name : Text
policies_name = bytes "policies/policies.csv"

abbrev pub model_name : Text
model_name = bytes "policies/model.conf"

abbrev pub or_else : Text → Text → Text
or_else path default = if is_empty path then default else path

-- initPaths, without the creation of the directory.
unfoldable pub policy_file : Map Text → Text
unfolding join_path lookup
policy_file env =
    or_else (getenv env (bytes "POLICIES_FILE_PATH")) (join_path (bytes "configs") policies_name)

unfoldable pub model_file : Map Text → Text
unfolding join_path lookup
model_file env =
    or_else (getenv env (bytes "MODEL_FILE_PATH")) (join_path (bytes "configs") model_name)

unfoldable pub content_error : Option File → Option Text
content_error none = some (error_text (kratos err_file_content_empty))
content_error (some f) =
    if is_empty f.contents then some (error_text (kratos err_empty_file)) else none

-- validateFileContent
unfoldable pub validate_file_content : Text → Files → Option Text
unfolding lookup content_error error_text
validate_file_content path files = content_error (lookup path files)

-- The library casbin: a model from its text, an enforcer from a model and a policy file, and the
-- loading of that file, which is absent as `none`.
pub record Casbin {ℓ κ} (M : Type ℓ) (E : Type κ) : Type (ℓ ⊔ κ) where
  pub new_model : Text → Option M
  pub new_enforcer : M → Option File → Option E
  pub load_policy : E → Option File → Option Text

module _ {ℓ κ} {M : Type ℓ} {E : Type κ} (casbin : Casbin M E) where
  -- The enforcer from the contents of the model and the policy file.
  unfoldable pub enforcer_of : (model policy : Option File) → Err ⊎ E
  enforcer_of none policy = inl (kratos err_file_content_empty)
  enforcer_of (some f) policy = elim (casbin.new_model f.contents) [
    | none ↦ inl (kratos err_file_content_empty)
    | some m ↦ elim (casbin.new_enforcer m policy) [
      | none ↦ inl (kratos err_auth_check_failed)
      | some enforcer ↦ elim (casbin.load_policy enforcer policy) [
        | none ↦ inr enforcer
        | some e ↦ inl (wrap (bytes "load RBAC policy: " ++ e) (plain e))
      ]
    ]
  ]

  unfoldable pub to_text : Err ⊎ E → Text ⊎ Option E
  unfolding error_text
  to_text (inl e) = inl (error_text e)
  to_text (inr enforcer) = inr (some enforcer)

  module _ (model policy : Text) where
    -- The candidate of initializeEnforcer, or the text of its error.
    unfoldable pub build_enforcer : Files → Text ⊎ Option E
    unfolding lookup enforcer_of to_text
    build_enforcer files = to_text (enforcer_of (lookup model files) (lookup policy files))

    -- initializeEnforcer: the enforcer in use stays when there is no candidate.
    unfoldable pub initialize_enforcer : Files → Option E → Option Text × Option E
    unfolding build_enforcer swap
    initialize_enforcer files current = swap current (build_enforcer files)

-- The errors of InitEnforcer.
pub data InitError : Type 0 where
  no_directory : Text → InitError
  not_synced : SyncError → InitError
  not_initialized : Text → InitError

-- What the package keeps: whether it is initialized, the enforcer in use, and the files.
pub record Rbac {κ} (E : Type κ) : Type κ where
  pub initialized : Bool
  pub enforcer : Option E
  pub files : Files

module _ (readers : Readers) (source : Source) (env : Map Text) where
  -- The model file, behind the policy file.
  unfoldable pub sync_model : Faults → Option SyncError × Files → Option SyncError × Files
  unfolding sync_file model_file related_key main_key validate_file_content
  sync_model io (some e, files) = (some e, files)
  sync_model io (none, files) =
      sync_file readers io source (related_key (main_key source) model_name) (model_file env)
        (some validate_file_content) files

  -- syncEssentialFiles
  unfoldable pub sync_essential_files :
      (policy_io model_io : Faults) → Files → Option SyncError × Files
  unfolding sync_file policy_file related_key main_key validate_file_content sync_model
  sync_essential_files policy_io model_io files = sync_model model_io (
      sync_file readers policy_io source (related_key (main_key source) policies_name)
        (policy_file env) (some validate_file_content) files)

module _ {ℓ κ} {M : Type ℓ} {E : Type κ} (casbin : Casbin M E) where
  unfoldable pub after_initialize : Rbac E → Option Text × Option E → Option InitError × Rbac E
  after_initialize s (some e, enforcer) =
      (some (InitError.not_initialized e), record s { enforcer = enforcer })
  after_initialize s (none, enforcer) = (none, record s { enforcer = enforcer; initialized = true })

  unfoldable pub after_sync :
      Map Text → Rbac E → Option SyncError × Files → Option InitError × Rbac E
  unfolding initialize_enforcer after_initialize
  after_sync env s (some e, files) = (some (InitError.not_synced e), record s { files = files })
  after_sync env s (none, files) =
      after_initialize (record s { files = files })
        (initialize_enforcer casbin (model_file env) (policy_file env) files s.enforcer)

  -- The early returns of InitEnforcer: it was called before, or MkdirAll fails.
  unfoldable pub unless_initialized :
      (initialized : Bool) (mkdir : Option Text)
      → Rbac E
      → Option InitError × Rbac E
      → Option InitError × Rbac E
  unless_initialized true mkdir s next = (none, s)
  unless_initialized false (some e) s next = (some (InitError.no_directory e), s)
  unless_initialized false none s next = next

  -- InitEnforcer
  unfoldable pub init_enforcer :
      Readers
      → Source
      → Map Text
      → (mkdir : Option Text) → (policy_io model_io : Faults) → Rbac E
      → Option InitError × Rbac E
  unfolding sync_essential_files after_sync unless_initialized
  init_enforcer readers source env mkdir policy_io model_io s =
      unless_initialized s.initialized mkdir s
        (after_sync env s (sync_essential_files readers source env policy_io model_io s.files))
