-- ===== src/Config/CtrlLoader.antt =====
-- config/config-loader/ctrl-loader.go: the configuration as a control service gives it, its choice
-- among the services, and the files that are written. The HTTP call, the decoding of JSON and the
-- conversion to YAML are parameters.
pub mod Run
mod Tests
use ecommerce_gateway.Common.{
  ℕ, zero, suc, ◌+◌, ◌%◌, Bool, true, false, not, ◌&&◌, ◌||◌, Option, none, some, ◌⊎◌, inl, inr,
  List, [], ◌∷◌, ◌++◌, Text, bytes, text_eq, Map, lookup, insert, delete, contains, length,
  get_elem?, is_empty, has_suffix, trim_suffix, if◌then◌else◌,
}
use ecommerce_gateway.Loader.Path.{join_path}
use ecommerce_gateway.Loader.Files.{File, file_of, Files}

pub record CtrlConfigLoader : Type 0 where
  pub ctrl_service : List Text
  pub ctrl_service_idx : ℕ
  pub next_ctrl_service : Bool
  pub dst_path : Text
  pub dst_priority_config_dir : Text
  pub last_version : Text
  pub last_priority_version : Option (Map Text)

pub record PriorityConfigItem : Type 0 where
  pub key : Text
  pub config : Text
  pub version : Text

pub record LoadResponse : Type 0 where
  pub config : Text
  pub version : Text
  pub priority_configs : List PriorityConfigItem

unfoldable pub next_index : CtrlConfigLoader → ℕ
next_index c =
    if c.next_ctrl_service
    then (c.ctrl_service_idx + 1) % length c.ctrl_service
    else c.ctrl_service_idx

-- choseCtrlService; `none` is its panic, when there is no service.
unfoldable pub chose_ctrl_service : CtrlConfigLoader → Option Text × CtrlConfigLoader
unfolding next_index
chose_ctrl_service c = (
  get_elem? c.ctrl_service (next_index c),
  record c { ctrl_service_idx = next_index c; next_ctrl_service = false },
)

-- What asking a service comes to.
pub data Reply : Type 0 where
  not_modified : Reply
  bad_status : ℕ → Reply
  no_reply : Text → Reply
  body : Text → Reply

pub data LoadError : Type 0 where
  -- the URL of the service, the call, or its status
  request_failed : Text → LoadError
  invalid_status : ℕ → LoadError
  not_decoded not_converted : LoadError
  write_failed rename_failed : Text → LoadError

-- A WriteFile that fails: its error, and what it has left under the name, if anything.
pub record WriteFault : Type 0 where
  pub error : Text
  pub left : Option Text

-- What one call of Load meets: the services, json.Unmarshal, yaml.JSONToYAML, the name of the
-- temporary file, and the errors of WriteFile and Rename.
pub record LoadIo : Type 0 where
  pub ask : Text → Reply
  pub decode : Text → Option (Option LoadResponse)
  pub to_yaml : Text → Option Text
  pub temporary : Text
  pub write : Option WriteFault
  pub rename : Option Text
  -- the same for the files of priority configurations, by their key
  pub item_write : Text → Option WriteFault
  pub item_rename : Text → Option Text
  -- what ReadDir lists of the files of the directory, and which of them cannot be removed
  pub entries : Option (List Text)
  pub stuck : Text → Bool

abbrev pub yaml_file : Text → File
yaml_file contents = file_of contents 420

-- The file of a priority configuration, and its temporary file.
abbrev pub item_path : (dir key : Text) → Text
item_path dir key = join_path dir (key ++ bytes ".yaml")

abbrev pub item_temporary : (dir key : Text) → Text
item_temporary dir key = join_path dir (key ++ bytes ".yaml.tmp")

abbrev pub leave : Text → Option Text → Files → Files
leave temporary none files = files
leave temporary (some contents) files = insert temporary (yaml_file contents) files

unfoldable pub write_then_rename :
    (temporary target : Text) (write : Option WriteFault) (rename : Option Text) (contents : Text)
    → Files
    → Option LoadError × Files
unfolding insert delete
write_then_rename temporary target (some e) rename contents files =
    (some (LoadError.write_failed e.error), leave temporary e.left files)
write_then_rename temporary target none (some e) contents files =
    (some (LoadError.rename_failed e), insert temporary (yaml_file contents) files)
write_then_rename temporary target none none contents files = (
  none,
  insert target (yaml_file contents)
      (delete temporary (insert temporary (yaml_file contents) files)),
)

-- An entry of the directory that the versions do not name.
unfoldable pub is_expired_entry : Map Text → Text → Bool
unfolding has_suffix trim_suffix lookup
is_expired_entry versions name =
    has_suffix name (bytes ".yaml") && not (contains (trim_suffix name (bytes ".yaml")) versions)

-- The loop of cleanUpPriorityConfigs over the entries of ReadDir that are no directories.
unfoldable pub clean_up : (dir : Text) (stuck : Text → Bool) → Map Text → List Text → Files → Files
unfolding is_expired_entry delete join_path
clean_up dir stuck versions [] files = files
clean_up dir stuck versions (name ∷ entries) files =
    let expired = is_expired_entry versions name && not (stuck name) in
    clean_up dir stuck versions entries
      (if expired then delete (join_path dir name) files else files)

unfoldable pub clean_up_priority_configs : LoadIo → (dir : Text) → Map Text → Files → Files
unfolding clean_up
clean_up_priority_configs io dir versions files = elim io.entries [
  | none ↦ files
  | some entries ↦ clean_up dir io.stuck versions entries files
]

-- One item, when its configuration converts.
unfoldable pub write_item :
    LoadIo → (dir : Text) → PriorityConfigItem → Option Text → Files → Option LoadError × Files
unfolding write_then_rename join_path
write_item io dir item none files = (some LoadError.not_converted, files)
write_item io dir item (some yaml) files =
    write_then_rename (item_temporary dir item.key) (item_path dir item.key)
      (io.item_write item.key) (io.item_rename item.key) yaml files

-- The loop of writePriorityConfigs: the versions of the items, or the first error.
unfoldable pub write_items :
    LoadIo
    → (dir : Text) → List PriorityConfigItem
    → Map Text
    → Files
    → (LoadError ⊎ Map Text) × Files
unfolding write_item insert
write_items io dir [] versions files = (inr versions, files)
write_items io dir (item ∷ items) versions files =
    let (err, after) = write_item io dir item (io.to_yaml item.config) files in
    let rest = write_items io dir items (insert item.key item.version versions) after in
    elim err [ some e ↦ (inl e, after) | none ↦ rest ]

unfoldable pub store_versions :
    LoadIo → CtrlConfigLoader → (LoadError ⊎ Map Text) × Files → CtrlConfigLoader × Files
unfolding clean_up_priority_configs
store_versions io c (inl e, files) = (c, files)
store_versions io c (inr versions, files) = (
  record c { last_priority_version = some versions },
  clean_up_priority_configs io c.dst_priority_config_dir versions files,
)

-- writePriorityConfigs, whose error Load only logs.
unfoldable pub write_priority_configs :
    LoadIo → LoadResponse → CtrlConfigLoader → Files → CtrlConfigLoader × Files
unfolding write_items store_versions
write_priority_configs io resp c files =
    if is_empty c.dst_priority_config_dir
    then (c, files)
    else store_versions io c
        (write_items io c.dst_priority_config_dir resp.priority_configs [] files)
