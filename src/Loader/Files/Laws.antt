-- ===== src/Loader/Files/Laws.antt =====
-- What a replacement leaves on the file system, in pkg/loader/source.go.
use ecommerce_gateway.Common.{
  ℕ, ◌≡◌, ◌∙◌, sym, ap, refl, false, not, ◌&&◌, Option, none, some, [], ◌∷◌, Text, text_eq,
  text_eq_refl, lookup, insert, delete, lookup-insert, lookup-delete, is_empty, is_some,
  if◌then◌else◌, Option-cases, Bool-cases, inl, inr,
}
use ecommerce_gateway.Loader.Files.{
  File, file_of, Files, FileError, Faults, Validate, check, Result, perm, attempt, fill_and_rename,
  remove_temporary, replace_with_mode, mode_of, replace_file, Snapshot, restore_file,
}

-- A result of which `P` holds whatever the operation does.
attempt-holds :
    (P : Result → Type 0) (o : Option Text) (error : Text → FileError) (files : Files)
    (next : Result)
    → ((e : Text) → P (some (error e), files))
    → P next
    → P (attempt o error files next)
unfolding attempt
attempt-holds P none error files next failed ok = ok
attempt-holds P (some e) error files next failed ok = failed e

-- The file at a path behind a replacement: the new one at the target when nothing failed, and
-- what was there before otherwise.
abbrev pub Swapped : Text → File → Files → Text → Result → Type 0
Swapped target file before p r =
    lookup p r.1 ≡ (if not (is_some r.0) && text_eq target p then some file else lookup p before)

pub lookup-insert_other :
    (k p : Text) (f : File) (files : Files)
    → text_eq k p ≡ false
    → lookup p (insert k f files) ≡ lookup p files
lookup-insert_other k p f files apart = rw (lookup-insert k p f files, apart) refl

pub lookup-delete_other :
    (k p : Text) (files : Files) → text_eq k p ≡ false → lookup p (delete k files) ≡ lookup p files
lookup-delete_other k p files apart = rw (lookup-delete k p files, apart) refl

module _ (io : Faults) (contents : Text) (target : Text) (mode : ℕ) (validate : Validate)
    (files : Files) (p : Text) (apart : text_eq io.temporary p ≡ false) where
  temporary_two :
      (f g : File) → lookup p (insert io.temporary g (insert io.temporary f files)) ≡ lookup p files
  temporary_two f g =
      lookup-insert_other io.temporary p g _ apart
      ∙ lookup-insert_other io.temporary p f files apart

  temporary_three :
      (f g h : File)
      → lookup p (insert io.temporary h (insert io.temporary g (insert io.temporary f files)))
        ≡ lookup p files
  temporary_three f g h = lookup-insert_other io.temporary p h _ apart ∙ temporary_two f g

  fill_and_rename-Swapped :
      Swapped target
        (file_of contents (perm mode))
        files
        p
        (fill_and_rename io contents target mode validate files)
  unfolding fill_and_rename
  fill_and_rename-Swapped =
      let P = Swapped target (file_of contents (perm mode)) files p in
      attempt-holds P io.chmod _ _ _ (λ e. lookup-insert_other io.temporary p _ files apart)
        (attempt-holds P io.write _ _ _ (λ e. temporary_three _ _ _)
          (attempt-holds P io.sync _ _ _ (λ e. temporary_three _ _ _)
            (attempt-holds P io.close _ _ _ (λ e. temporary_three _ _ _)
              (attempt-holds P (check validate io.temporary _) _ _ _ (λ e. temporary_three _ _ _)
                (attempt-holds P io.rename _ _ _ (λ e. temporary_three _ _ _)
                  (lookup-insert target p _ _
                    ∙ ap (λ o. if text_eq target p then some (file_of contents (perm mode)) else o)
                        (lookup-delete_other io.temporary p _ apart ∙ temporary_three _ _ _)))))))

  remove_temporary-Swapped :
      (file : File) (r : Result)
      → Swapped target file files p r
      → Swapped target file files p (remove_temporary io contents target mode validate r)
  unfolding remove_temporary
  remove_temporary-Swapped file (err, fs) h = elim (Option-cases io.remove) [
    | inl e ↦ rw e (lookup-delete_other io.temporary p fs apart ∙ h)
    | inr (_, e) ↦ rw e h
  ]

  replace_with_mode-Swapped :
      Swapped target
        (file_of contents (perm mode))
        files
        p
        (replace_with_mode io contents target mode validate files)
  unfolding replace_with_mode
  replace_with_mode-Swapped =
      let P = Swapped target (file_of contents (perm mode)) files p in
      elim (Bool-cases (is_empty contents)) [
        | inl empty ↦ rw empty refl
        | inr full ↦ rw full (
            attempt-holds P io.mkdir _ _ _ (λ e. refl)
              (attempt-holds P io.create _ _ _ (λ e. refl)
                (remove_temporary-Swapped (file_of contents (perm mode)) _
                  fill_and_rename-Swapped)))
      ]

attempt-succeeds :
    (o : Option Text) (error : Text → FileError) (files : Files) (next : Result)
    → (attempt o error files next).0 ≡ none
    → (o ≡ none) × (next.0 ≡ none)
unfolding attempt
attempt-succeeds none error files next h = (refl, h)
attempt-succeeds (some e) error files next h = cc

-- The validation has seen the file under a name of its own, and let it pass.
abbrev pub Validated : Validate → Text → File → Type 0
Validated validate temporary file =
    (seen : Files) × (lookup temporary seen ≡ some file) × (check validate temporary seen ≡ none)

fill_and_rename-Validated :
    (io : Faults) (contents target : Text) (mode : ℕ) (validate : Validate) (files : Files)
    → (fill_and_rename io contents target mode validate files).0 ≡ none
    → Validated validate io.temporary (file_of contents (perm mode))
unfolding fill_and_rename
fill_and_rename-Validated io contents target mode validate files h =
    let unlocked = attempt-succeeds io.chmod _ _ _ h in
    let filled = attempt-succeeds io.write _ _ _ unlocked.1 in
    let synced = attempt-succeeds io.sync _ _ _ filled.1 in
    let closed = attempt-succeeds io.close _ _ _ synced.1 in
    let valid = attempt-succeeds (check validate io.temporary _) _ _ _ closed.1 in
    (_, rw (lookup-insert io.temporary io.temporary _ _, text_eq_refl io.temporary) refl, valid.0)

remove_temporary-error :
    (io : Faults) (contents target : Text) (mode : ℕ) (validate : Validate) (r : Result)
    → (remove_temporary io contents target mode validate r).0 ≡ r.0
unfolding remove_temporary
remove_temporary-error io contents target mode validate (err, files) =
    elim (Option-cases io.remove) [ inl e ↦ rw e refl | inr (_, e) ↦ rw e refl ]

pub replace_with_mode-Validated :
    (io : Faults) (contents target : Text) (mode : ℕ) (validate : Validate) (files : Files)
    → (replace_with_mode io contents target mode validate files).0 ≡ none
    → (is_empty contents ≡ false) × Validated validate io.temporary (file_of contents (perm mode))
unfolding replace_with_mode
replace_with_mode-Validated io [] target mode validate files h = cc
replace_with_mode-Validated io (c ∷ contents) target mode validate files h =
    let made = attempt-succeeds io.mkdir _ _ _ h in
    let opened = attempt-succeeds io.create _ _ _ made.1 in
    (
      refl,
      fill_and_rename-Validated io (c ∷ contents) target mode validate files
          (sym (remove_temporary-error io (c ∷ contents) target mode validate _) ∙ opened.1),
    )

-- Whatever operation fails, a replacement acts as a whole or not at all: at every path but that of
-- the temporary file stands what stood there before, except that the target holds the new contents,
-- with the mode that it had, when no error is returned.
pub replace_file-atomic :
    (io : Faults) (contents target : Text) (validate : Validate) (files : Files) (p : Text)
    → text_eq io.temporary p ≡ false
    → lookup p (replace_file io contents target validate files).1 ≡ (
        if not (is_some (replace_file io contents target validate files).0) && text_eq target p
        then some (file_of contents (perm (mode_of (lookup target files))))
        else lookup p files)
unfolding replace_file
replace_file-atomic io contents target validate files p apart =
    attempt-holds (Swapped target (file_of contents (perm (mode_of (lookup target files)))) files p)
      io.stat _ _ _ (λ e. refl)
      (replace_with_mode-Swapped io contents target (mode_of (lookup target files)) validate files p
        apart)

pub replace_file-replaces :
    (io : Faults) (contents target : Text) (validate : Validate) (files : Files)
    → text_eq io.temporary target ≡ false
    → (replace_file io contents target validate files).0 ≡ none
    → lookup target (replace_file io contents target validate files).1
      ≡ some (file_of contents (perm (mode_of (lookup target files))))
replace_file-replaces io contents target validate files apart h =
    replace_file-atomic io contents target validate files target apart
    ∙ rw (h, text_eq_refl target) refl

-- A replacement that returns no error has put a file in place that is not empty and that the
-- validation has let pass.
pub replace_file-Validated :
    (io : Faults) (contents target : Text) (validate : Validate) (files : Files)
    → (replace_file io contents target validate files).0 ≡ none
    → (is_empty contents ≡ false)
      × Validated validate io.temporary (file_of contents (perm (mode_of (lookup target files))))
unfolding replace_file
replace_file-Validated io contents target validate files h =
    replace_with_mode-Validated io contents target (mode_of (lookup target files)) validate files
      (attempt-succeeds io.stat _ _ _ h).1

-- A file that can be put back: it is not empty, and its mode is one of permissions only.
abbrev pub Restorable : Snapshot → Type 0
Restorable none = Unit
Restorable (some f) = (is_empty f.contents ≡ false) × (perm f.mode ≡ f.mode)

pub untouched :
    (o : Option FileError) (new old : Option File)
    → (if not (is_some o) && false then new else old) ≡ old
untouched none new old = refl
untouched (some e) new old = refl

-- A restoration that returns no error leaves the snapshot at the target.
pub restore_file-restores :
    (io : Faults) (remove : Option Text) (target : Text) (snapshot : Snapshot) (files : Files)
    → text_eq io.temporary target ≡ false
    → Restorable snapshot
    → (restore_file io remove target snapshot files).0 ≡ none
    → lookup target (restore_file io remove target snapshot files).1 ≡ snapshot
unfolding restore_file attempt
restore_file-restores io (some e) target none files apart ok h = cc
restore_file-restores io none target none files apart ok h =
    rw (lookup-delete target target files, text_eq_refl target) refl
restore_file-restores io remove target (some f) files apart ok h =
    replace_with_mode-Swapped io f.contents target f.mode none files target apart
    ∙ rw (h, text_eq_refl target, ok.1) refl

-- A restoration that returns no error leaves the other paths.
pub restore_file-other :
    (io : Faults) (remove : Option Text) (target : Text) (snapshot : Snapshot) (files : Files)
    (p : Text)
    → text_eq io.temporary p ≡ false
    → text_eq target p ≡ false
    → lookup p (restore_file io remove target snapshot files).1 ≡ lookup p files
unfolding restore_file attempt
restore_file-other io (some e) target none files p apart other = refl
restore_file-other io none target none files p apart other =
    lookup-delete_other target p files other
restore_file-other io remove target (some f) files p apart other =
    replace_with_mode-Swapped io f.contents target f.mode none files p apart
    ∙ rw other (untouched (replace_with_mode io f.contents target f.mode none files).0 _ _)
