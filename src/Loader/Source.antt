-- ===== src/Loader/Source.antt =====
-- The sources of pkg/loader/source.go: how NewSource chooses one, what each loads, and the watch
-- loop of the configuration center. What package configsource of config-center answers is given.
pub mod Laws
mod Tests
use ecommerce_gateway.Common.{
  ℕ, ◌*◌, Bool, true, false, not, Option, none, some, ◌⊎◌, inl, inr, List, [], ◌∷◌, ◌++◌, map, Text,
  bytes, text_eq, is_empty, is_some, Map, lookup, lookup_or, ltb, if◌then◌else◌,
}
use ecommerce_gateway.Loader.Keys.{
  KeyError, FileSource, new_local_source, validate_key, path_for_key,
}

-- configsource.Config: the type of the source, and the key that it selects.
pub record SourceConfig : Type 0 where
  pub source_type : Text
  pub key : Text

pub data SourceError : Type 0 where
  -- what configsource or the operating system reports
  external : Text → SourceError
  missing_env : Text → SourceError
  deprecated_source : SourceError
  unknown_source : Text → SourceError
  wrong_type : Text → SourceError
  bad_key : KeyError → SourceError
  unsupported_watch : SourceError
  read_failed : Text → Text → SourceError
  empty_config : Text → SourceError

pub data Source : Type 0 where
  config_center : SourceConfig → Source
  local_file : FileSource → Source

-- NewConfigCenterSource
unfoldable pub new_config_center_source :
    (load_source_config : Text → Text ⊎ SourceConfig) (selector : Text) → SourceError ⊎ Source
unfolding text_eq
new_config_center_source load_source_config selector = elim (load_source_config selector) [
  | inl e ↦ inl (SourceError.external e)
  | inr cfg ↦
      if not (text_eq cfg.source_type (bytes "config_center"))
      then inl (SourceError.wrong_type cfg.source_type)
      else inr (Source.config_center cfg)
]

-- os.Getenv
abbrev pub getenv : Map Text → Text → Text
getenv env k = lookup_or k [] env

-- NewSource
unfoldable pub new_source :
    (load_source_config : Text → Text ⊎ SourceConfig) (env : Map Text) → SourceError ⊎ Source
unfolding new_config_center_source new_local_source text_eq lookup
new_source load_source_config env =
    let selector = getenv env (bytes "CONFIG_SOURCE_FILE") in
    let source_type = getenv env (bytes "CONFIG_SOURCE") in
    let config_file = getenv env (bytes "CONFIG_FILE") in
    if not (is_empty selector)
    then new_config_center_source load_source_config selector
    else if text_eq source_type (bytes "file")
    then if is_empty config_file
      then inl (SourceError.missing_env (bytes "CONFIG_FILE"))
      else inr (Source.local_file (new_local_source config_file))
    else if text_eq source_type (bytes "config_center")
    then inl SourceError.deprecated_source
    else if is_empty source_type
    then inl (SourceError.missing_env (bytes "CONFIG_SOURCE_FILE"))
    else inl (SourceError.unknown_source source_type)

-- Source.MainKey
unfoldable pub main_key : Source → Text
main_key (Source.config_center cfg) = cfg.key
main_key (Source.local_file s) = s.main_key

-- configCenterSource.configForKey
unfoldable pub config_for_key : SourceConfig → Text → SourceError ⊎ SourceConfig
unfolding validate_key
config_for_key config key = elim (validate_key key) [
  | some e ↦ inl (SourceError.bad_key e)
  | none ↦ inr (record config { key = key })
]

-- What the two kinds of sources read: configsource.Load, and os.ReadFile.
pub record Readers : Type 0 where
  pub load_remote : SourceConfig → Text ⊎ Text
  pub read_file : Text → Text ⊎ Text

load_remote_file : Readers → SourceError ⊎ SourceConfig → SourceError ⊎ Text
load_remote_file io (inl e) = inl e
load_remote_file io (inr cfg) = elim (io.load_remote cfg) [
  | inl e ↦ inl (SourceError.external e)
  | inr contents ↦ inr contents
]

load_local_file : Readers → KeyError ⊎ Text → SourceError ⊎ Text
load_local_file io (inl e) = inl (SourceError.bad_key e)
load_local_file io (inr file_path) = elim (io.read_file file_path) [
  | inl e ↦ inl (SourceError.read_failed file_path e)
  | inr [] ↦ inl (SourceError.empty_config file_path)
  | inr (c ∷ contents) ↦ inr (c ∷ contents)
]

-- Source.Load of either kind.
unfoldable pub load : Readers → Source → Text → SourceError ⊎ Text
unfolding load_remote_file load_local_file config_for_key path_for_key
load io (Source.config_center cfg) key = load_remote_file io (config_for_key cfg key)
load io (Source.local_file s) key = load_local_file io (path_for_key s key)

-- loader.Event
pub record Event : Type 0 where
  pub value : Text
  pub deleted : Bool
  pub err : Option Text

-- Durations in nanoseconds.
abbrev pub watch_min_backoff : ℕ
watch_min_backoff = 1000000000

abbrev pub watch_max_backoff : ℕ
watch_max_backoff = 30000000000

-- One call of configsource.Watch: the events that it passed on, the error that it ended with,
-- whether the context was done then, and whether it was done before the timer fired.
pub record Stream : Type 0 where
  pub events : List Event
  pub ended : Option Text
  pub canceled : Bool
  pub canceled_waiting : Bool

-- A call of onEvent, with an event of the stream or with the report that the stream ended.
pub data Emit : Type 0 where
  delivered : Event → Emit
  stream_ended : (backoff : ℕ) (err : Text) → Emit

unfoldable pub double_backoff : ℕ → ℕ
double_backoff backoff =
    if ltb watch_max_backoff (backoff * 2) then watch_max_backoff else backoff * 2

abbrev pub stream_error : Option Text → Text
stream_error none = bytes "watch stream ended without an error"
stream_error (some e) = e

-- The loop of configCenterSource.Watch, over the streams that it opens.
unfoldable pub watch_loop : (backoff : ℕ) → List Stream → List Emit
unfolding double_backoff
watch_loop backoff [] = []
watch_loop backoff (s ∷ streams) =
    let after = if is_empty s.events then backoff else watch_min_backoff in
    let rest = watch_loop (double_backoff after) streams in
    map Emit.delivered s.events
    ++ (if s.canceled
        then []
        else Emit.stream_ended after (stream_error s.ended)
          ∷ (if s.canceled_waiting then [] else rest))

-- configCenterSource.Watch; a source of files does not support it.
unfoldable pub watch : Source → Text → List Stream → SourceError ⊎ List Emit
unfolding watch_loop config_for_key
watch (Source.config_center cfg) key streams = elim (config_for_key cfg key) [
  | inl e ↦ inl e
  | inr c ↦ inr (watch_loop watch_min_backoff streams)
]
watch (Source.local_file s) key streams = inl SourceError.unsupported_watch
