-- ===== src/Config/CtrlLoader/Run.antt =====
-- Load and Run of config/config-loader/ctrl-loader.go.
pub mod Rotation
pub mod Outcome
use ecommerce_gateway.Common.{
  Bool, true, false, Option, none, some, List, [], ◌∷◌, Text, if◌then◌else◌,
}
use ecommerce_gateway.Loader.Files.{Files}
use ecommerce_gateway.Config.CtrlLoader.{
  CtrlConfigLoader, LoadResponse, Reply, LoadError, LoadIo, chose_ctrl_service, write_then_rename,
  write_priority_configs,
}

-- What Load has before it writes: nothing new, an error, a nil pointer in place of a response, or a
-- response and its main configuration.
pub data Fetched : Type 0 where
  up_to_date : Fetched
  broken : LoadError → Fetched
  nil_response : Fetched
  ready : LoadResponse → (yaml : Text) → Fetched

unfoldable pub converted : LoadResponse → Option Text → Fetched
converted resp none = Fetched.broken LoadError.not_converted
converted resp (some yaml) = Fetched.ready resp yaml

-- The body null makes the pointer to the response nil, without an error.
unfoldable pub decoded : LoadIo → Option (Option LoadResponse) → Fetched
unfolding converted
decoded io none = Fetched.broken LoadError.not_decoded
decoded io (some none) = Fetched.nil_response
decoded io (some (some resp)) = converted resp (io.to_yaml resp.config)

-- load, with the decoding of what it returns.
unfoldable pub fetched : LoadIo → Reply → Fetched
unfolding decoded
fetched io Reply.not_modified = Fetched.up_to_date
fetched io (Reply.bad_status n) = Fetched.broken (LoadError.invalid_status n)
fetched io (Reply.no_reply e) = Fetched.broken (LoadError.request_failed e)
fetched io (Reply.body contents) = decoded io (io.decode contents)

-- A call that panics, or returns an error or none.
pub data Result : Type 0 where
  crashed : Result
  returned : Option LoadError → CtrlConfigLoader → Files → Result

-- The deferred function of Load: behind an error the next service is asked.
abbrev pub ask_next : CtrlConfigLoader → CtrlConfigLoader
ask_next c = record c { next_ctrl_service = true }

unfoldable pub after_write :
    LoadIo → LoadResponse → CtrlConfigLoader → Option LoadError × Files → Result
unfolding write_priority_configs
after_write io resp c (some e, files) = Result.returned (some e) (ask_next c) files
after_write io resp c (none, files) =
    let (stored, written) =
      write_priority_configs io resp (record c { last_version = resp.version }) files in
    Result.returned none stored written

unfoldable pub write_config : LoadIo → CtrlConfigLoader → Files → Fetched → Result
unfolding write_then_rename after_write
write_config io c files Fetched.up_to_date = Result.returned none c files
write_config io c files (Fetched.broken e) = Result.returned (some e) (ask_next c) files
write_config io c files Fetched.nil_response = Result.crashed
write_config io c files (Fetched.ready resp yaml) =
    after_write io resp c (write_then_rename io.temporary c.dst_path io.write io.rename yaml files)

unfoldable pub ask_service : LoadIo → Option Text → CtrlConfigLoader → Files → Result
unfolding write_config fetched
ask_service io none c files = Result.crashed
ask_service io (some service) c files = write_config io c files (fetched io (io.ask service))

-- Load
unfoldable pub load_config : LoadIo → CtrlConfigLoader → Files → Result
unfolding chose_ctrl_service ask_service
load_config io c files =
    let (service, chosen) = chose_ctrl_service c in ask_service io service chosen files

-- One round of Run: what Load meets, and whether the context is done behind a load that succeeds.
pub record Round : Type 0 where
  pub io : LoadIo
  pub done : Bool

-- How far Run has come: it has returned or crashed, or its rounds go on.
pub data Progress : Type 0 where
  ended : Progress
  panicked : Progress
  running : CtrlConfigLoader → Files → Progress

-- The loop of Run: behind an error it goes on at once, and only behind a load that succeeds does it
-- look at the context. LoadFeatures asks the same service again, which changes no state here.
unfoldable pub advance : (done : Bool) → Result → Progress
advance done Result.crashed = Progress.panicked
advance done (Result.returned (some e) c files) = Progress.running c files
advance true (Result.returned none c files) = Progress.ended
advance false (Result.returned none c files) = Progress.running c files

unfoldable pub run_round : Round → Progress → Progress
unfolding advance load_config
run_round r Progress.ended = Progress.ended
run_round r Progress.panicked = Progress.panicked
run_round r (Progress.running c files) = advance r.done (load_config r.io c files)

unfoldable pub run_loop : List Round → Progress → Progress
unfolding run_round
run_loop [] p = p
run_loop (r ∷ rounds) p = run_loop rounds (run_round r p)
