-- ===== src/Loader/Watch/Tests.antt =====
-- A watch on an example: pkg/loader/source.go.
use ecommerce_gateway.Common.{
  ◌≡◌, refl, true, false, Option, none, some, inl, inr, [], ◌∷◌, List, Text, bytes, text_eq, lookup,
  if◌then◌else◌,
}
use ecommerce_gateway.Loader.Source.{Readers, Source, Event}
use ecommerce_gateway.Loader.Files.{File, file_of, Files}
use ecommerce_gateway.Loader.Files.Tests.{no_faults, disk_full, target, old_files, wants_text}
use ecommerce_gateway.Loader.Watch.{Io, World, handle, handle_all}
use ecommerce_gateway.Loader.Watch.LastGood.{Good, replay, reports, handle_all-replays}

-- The runtime is the text that it was last built from; it refuses "bad".
unfoldable build : Option File → Text → Option Text × Text
unfolding text_eq
build none runtime = (some (bytes "missing"), runtime)
build (some f) runtime =
    if text_eq f.contents (bytes "bad")
    then (some (bytes "syntax"), runtime)
    else (none, f.contents)

unfoldable rebuild : Files → Text → Option Text × Text
unfolding build lookup
rebuild files runtime = build (lookup target files) runtime

abbrev io : Io
io = record {
  stat = none;
  read = none;
  replacing = no_faults;
  restoring = no_faults;
  remove = none;
}

abbrev update : Text → Event
update value = record { value = value; deleted = false; err = none }

abbrev events : List (Event × Io)
events =
    (update (bytes "new"), io)
    ∷ (update (bytes "bad"), io)
    ∷ (update (bytes "newer"), record io { replacing = disk_full })
    ∷ (record { value = []; deleted = true; err = none }, io)
    ∷ []

abbrev start : World Text
start = record { files = old_files; runtime = bytes "old" }

last_kept :
    lookup target (handle_all (some rebuild) (some wants_text) target events start).files
    ≡ some (file_of (bytes "new") 420)
unfolding handle_all rebuild wants_text lookup
last_kept = refl

handle_all-replays_example :
    (lookup target (handle_all (some rebuild) (some wants_text) target events start).files
      ≡ replay
          (reports (some rebuild) (some wants_text) target events start)
          (lookup target old_files))
    × Good
        (some wants_text)
        (lookup target (handle_all (some rebuild) (some wants_text) target events start).files)
unfolding handle rebuild wants_text lookup text_eq
handle_all-replays_example =
    handle_all-replays (some rebuild) (some wants_text) target events start
      ((refl, refl), ((refl, refl), ((refl, refl), ((refl, refl), tt))))
      (
        (refl, refl),
        (bytes "d/.config-1", ((bytes "d/.config-1", file_of (bytes "old") 420) ∷ [], refl, refl)),
      )
      (refl, (refl, (refl, (refl, tt))))

abbrev readers : Readers
readers = record {
  load_remote = λ cfg. inl (bytes "unused");
  read_file = λ path. inr (bytes "first");
}
