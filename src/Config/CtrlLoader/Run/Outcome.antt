-- ===== src/Config/CtrlLoader/Run/Outcome.antt =====
-- What a load of config/config-loader/ctrl-loader.go leaves behind.
use ecommerce_gateway.Common.{◌+◌, ◌%◌, length, ◌≡◌, false, none, some, ◌⊎◌, Text, text_eq, lookup}
use ecommerce_gateway.Loader.Files.{Files}
use ecommerce_gateway.Config.CtrlLoader.{CtrlConfigLoader, LoadResponse, Reply, LoadIo, next_index}
use ecommerce_gateway.Config.CtrlLoader.Run.{Result}

-- The response whose main configuration a reply brings.
abbrev pub Brings : LoadIo → Reply → LoadResponse → Type 0
Brings io reply resp =
    (contents : Text) × (yaml : Text) × (reply ≡ Reply.body contents)
    × (io.decode contents ≡ some (some resp))
    × (io.to_yaml resp.config ≡ some yaml)

-- What a load that asked a service leaves: an error leaves the versions and every file but the
-- temporary one, and the next load will ask the service behind this one in the list, from the last
-- one on to the first; without an error the same service is kept, and either nothing has changed or
-- the version is that of the response. The load panics only for the body null.
abbrev pub Leaves : LoadIo → Reply → CtrlConfigLoader → Files → Result → Type 0
Leaves io reply c files Result.crashed =
    (contents : Text) × (reply ≡ Reply.body contents) × (io.decode contents ≡ some none)
Leaves io reply c files (Result.returned none after written) =
    (after.next_ctrl_service ≡ c.next_ctrl_service)
    × (((reply ≡ Reply.not_modified) × (after ≡ c) × (written ≡ files))
        ⊎ ((resp : LoadResponse) × Brings io reply resp × (after.last_version ≡ resp.version)))
Leaves io reply c files (Result.returned (some e) after written) =
    (next_index after ≡ (c.ctrl_service_idx + 1) % length c.ctrl_service)
    × (after.last_version ≡ c.last_version)
    × (after.last_priority_version ≡ c.last_priority_version)
    × ((p : Text) → text_eq io.temporary p ≡ false → lookup p written ≡ lookup p files)
