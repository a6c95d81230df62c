-- ===== src/Loader/Files.antt =====
-- The files that pkg/loader/source.go writes: ReplaceFile, snapshotFile and restoreFile, on a file
-- system each of whose operations may fail. Directories are not represented.
pub mod Laws
pub mod Tests
use ecommerce_gateway.Common.{
  ℕ, ◌%◌, Bool, true, false, Option, none, some, ◌⊎◌, inl, inr, List, [], ◌∷◌, Text, Map, lookup,
  insert, delete, is_empty, if◌then◌else◌,
}

pub record File : Type 0 where
  pub contents : Text
  pub mode : ℕ

abbrev pub file_of : Text → ℕ → File
file_of contents mode = record { contents = contents; mode = mode }

abbrev pub Files : Type 0
Files = Map File

-- The errors by the operation that they report, with the operating system's text.
pub data FileError : Type 0 where
  empty_content : FileError
  inspect_existing create_directory create_temporary set_permissions : Text → FileError
  write_temporary sync_temporary close_temporary invalid_update replace_target : Text → FileError
  inspect_current read_current remove_new : Text → FileError

-- What the operations of one replacement meet: the name of the temporary file, an error for each
-- operation that fails, and what a failed write leaves.
pub record Faults : Type 0 where
  pub temporary : Text
  pub stat : Option Text
  pub mkdir : Option Text
  pub create : Option Text
  pub chmod : Option Text
  pub write : Option Text
  pub written : Text
  pub sync : Option Text
  pub close : Option Text
  pub rename : Option Text
  pub remove : Option Text

-- A validation reads the file that it is given the path of; nil is `none`.
abbrev pub Validate : Type 0
Validate = Option (Text → Files → Option Text)

abbrev pub check : Validate → Text → Files → Option Text
check none path files = none
check (some validate) path files = validate path files

abbrev pub Result : Type 0
Result = Option FileError × Files

-- FileMode.Perm
abbrev pub perm : ℕ → ℕ
perm mode = mode % 512

-- An operation, and what comes behind it when it succeeds.
unfoldable pub attempt : Option Text → (Text → FileError) → Files → Result → Result
attempt none error files next = next
attempt (some e) error files next = (some (error e), files)

module _ (io : Faults) (contents : Text) (target : Text) (mode : ℕ) (validate : Validate) where
  -- The body of replaceFile from the temporary file's creation on, before the deferred removal.
  unfoldable pub fill_and_rename : Files → Result
  unfolding attempt insert delete
  fill_and_rename files =
      let file = file_of contents (perm mode) in
      let created = insert io.temporary (file_of [] 384) files in
      let allowed = insert io.temporary (file_of [] (perm mode)) created in
      let partial = insert io.temporary (file_of io.written (perm mode)) allowed in
      let full = insert io.temporary file allowed in
      attempt io.chmod FileError.set_permissions created (
        attempt io.write FileError.write_temporary partial (
          attempt io.sync FileError.sync_temporary full (
            attempt io.close FileError.close_temporary full (
              attempt (check validate io.temporary full) FileError.invalid_update full (
                attempt io.rename FileError.replace_target full
                  (none, insert target file (delete io.temporary full)))))))

  -- The deferred removal, whose error is dropped.
  unfoldable pub remove_temporary : Result → Result
  unfolding delete
  remove_temporary (err, files) = elim io.remove [
    | none ↦ (err, delete io.temporary files)
    | some e ↦ (err, files)
  ]

  -- replaceFile
  unfoldable pub replace_with_mode : Files → Result
  unfolding attempt remove_temporary fill_and_rename
  replace_with_mode files =
      if is_empty contents
      then (some FileError.empty_content, files)
      else attempt io.mkdir FileError.create_directory files (
          attempt io.create FileError.create_temporary files
            (remove_temporary (fill_and_rename files)))

-- The mode of a file that is to be replaced.
abbrev pub mode_of : Option File → ℕ
mode_of none = 384
mode_of (some f) = perm f.mode

-- ReplaceFile
unfoldable pub replace_file : Faults → Text → Text → Validate → Files → Result
unfolding attempt replace_with_mode lookup
replace_file io contents target validate files =
    attempt io.stat FileError.inspect_existing files
      (replace_with_mode io contents target (mode_of (lookup target files)) validate files)

-- fileSnapshot; a file that does not exist has none.
abbrev pub Snapshot : Type 0
Snapshot = Option File

-- What a file becomes in a snapshot, when ReadFile does not fail.
unfoldable pub from_lookup : (read : Option Text) → Option File → FileError ⊎ Snapshot
from_lookup read none = inr none
from_lookup (some e) (some f) = inl (FileError.read_current e)
from_lookup none (some f) = inr (some (record f { mode = perm f.mode }))

-- snapshotFile, with the errors of Stat and of ReadFile.
unfoldable pub snapshot_file : (stat read : Option Text) → Text → Files → FileError ⊎ Snapshot
unfolding lookup from_lookup
snapshot_file (some e) read target files = inl (FileError.inspect_current e)
snapshot_file none read target files = from_lookup read (lookup target files)

-- restoreFile, with the error of Remove.
unfoldable pub restore_file : Faults → (remove : Option Text) → Text → Snapshot → Files → Result
unfolding replace_with_mode attempt delete
restore_file io remove target (some f) files =
    replace_with_mode io f.contents target f.mode none files
restore_file io remove target none files =
    attempt remove FileError.remove_new files (none, delete target files)
