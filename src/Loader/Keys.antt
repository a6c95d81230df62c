-- ===== src/Loader/Keys.antt =====
-- The keys of a configuration source in pkg/loader/source.go: RelatedKey, validateKey, and the
-- file of a key in a local source.
pub mod Laws
mod Tests
use ecommerce_gateway.Common.{
  Bool, true, false, ◌||◌, Option, none, some, ◌⊎◌, inl, inr, Text, bytes, text_eq, has_prefix,
  is_empty, if◌then◌else◌,
}
use ecommerce_gateway.Loader.Path.{clean, join_path, dir_of, base_of, is_rooted}

-- Why a key is refused.
pub data KeyError : Type 0 where
  empty_key : KeyError
  escapes : Text → KeyError

-- validateKey
unfoldable pub validate_key : Text → Option KeyError
unfolding clean has_prefix text_eq
validate_key key =
    if is_empty key
    then some KeyError.empty_key
    else let cleaned = clean key in
      if is_rooted key || text_eq cleaned (bytes "..") || has_prefix cleaned (bytes "../")
      then some (KeyError.escapes key)
      else none

-- RelatedKey
unfoldable pub related_key : (main_key relative : Text) → Text
unfolding dir_of text_eq clean join_path
related_key main_key relative =
    let base = dir_of main_key in
    if text_eq base (bytes ".") then clean relative else join_path base relative

pub record FileSource : Type 0 where
  pub main_path : Text
  pub main_key : Text
  pub root : Text

-- NewLocalSource
unfoldable pub new_local_source : Text → FileSource
unfolding clean dir_of base_of
new_local_source config_file =
    let cleaned = clean config_file in
    record { main_path = cleaned; main_key = base_of cleaned; root = dir_of cleaned }

-- fileSource.pathForKey
unfoldable pub path_for_key : FileSource → Text → KeyError ⊎ Text
unfolding validate_key join_path text_eq
path_for_key s key = elim (validate_key key) [
  | some e ↦ inl e
  | none ↦ inr (if text_eq key s.main_key then s.main_path else join_path s.root key)
]
