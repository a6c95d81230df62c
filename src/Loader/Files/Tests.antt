-- ===== src/Loader/Files/Tests.antt =====
-- Replacements on examples: pkg/loader/source.go.
use ecommerce_gateway.Common.{
  ◌≡◌, refl, not, ◌&&◌, Option, none, some, [], ◌∷◌, Text, bytes, text_eq, lookup, is_empty,
  is_some, if◌then◌else◌,
}
use ecommerce_gateway.Loader.Files.{
  file_of, Files, FileError, Faults, perm, replace_file, restore_file, mode_of,
}
use ecommerce_gateway.Loader.Files.Laws.{replace_file-atomic}

abbrev pub no_faults : Faults
no_faults = record {
  temporary = bytes "d/.config-1";
  stat = none;
  mkdir = none;
  create = none;
  chmod = none;
  write = none;
  written = [];
  sync = none;
  close = none;
  rename = none;
  remove = none;
}

abbrev pub disk_full : Faults
disk_full = record no_faults {
  write = some (bytes "no space left on device");
  written = bytes "ne";
}

abbrev pub target : Text
target = bytes "d/model.conf"

abbrev pub old_files : Files
old_files = (target, file_of (bytes "old") 420) ∷ []

-- A validation that wants a file that is not empty.
unfoldable pub wants_text : Text → Files → Option Text
unfolding lookup
wants_text path files = elim (lookup path files) [
  | none ↦ some (bytes "missing")
  | some f ↦ if is_empty f.contents then some (bytes "empty") else none
]

replaced :
    replace_file no_faults (bytes "new") target (some wants_text) old_files
    ≡ (none, (target, file_of (bytes "new") 420) ∷ [])
unfolding replace_file wants_text text_eq
replaced = refl

empty_refused :
    replace_file no_faults [] target (some wants_text) old_files
    ≡ (some FileError.empty_content, old_files)
unfolding replace_file
empty_refused = refl

-- An empty file that was there before an update cannot be put back.
empty_not_restored :
    restore_file no_faults none target (some (file_of [] 420)) old_files
    ≡ (some FileError.empty_content, old_files)
unfolding restore_file
empty_not_restored = refl

replace_file-atomic_example :
    lookup target (replace_file disk_full (bytes "new") target (some wants_text) old_files).1 ≡ (
      if not (is_some (replace_file disk_full (bytes "new") target (some wants_text) old_files).0)
        && text_eq target target
      then some (file_of (bytes "new") (perm (mode_of (lookup target old_files))))
      else lookup target old_files)
unfolding text_eq
replace_file-atomic_example =
    replace_file-atomic disk_full (bytes "new") target (some wants_text) old_files target refl
