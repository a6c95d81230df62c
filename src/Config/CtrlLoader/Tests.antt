-- ===== src/Config/CtrlLoader/Tests.antt =====
-- Loads on examples: config/config-loader/ctrl-loader.go.
use ecommerce_gateway.Common.{
  ℕ, ◌<◌, ◌≡◌, refl, arith, true, false, none, some, [], ◌∷◌, bytes, get_elem?, text_eq,
  if◌then◌else◌,
}
use ecommerce_gateway.Loader.Files.{Files}
use ecommerce_gateway.Config.CtrlLoader.{
  CtrlConfigLoader, LoadResponse, PriorityConfigItem, Reply, LoadIo, yaml_file, next_index,
}
use ecommerce_gateway.Config.CtrlLoader.Run.{Result, load_config, Round, Progress, run_loop}
use ecommerce_gateway.Config.CtrlLoader.Run.Rotation.{Silent, asked, asked_each, run_loop-Silent}

abbrev loader : CtrlConfigLoader
loader = record {
  ctrl_service = bytes "http://a" ∷ bytes "http://b" ∷ bytes "http://c" ∷ [];
  ctrl_service_idx = 1;
  next_ctrl_service = false;
  dst_path = bytes "config.yaml";
  dst_priority_config_dir = bytes "canary";
  last_version = bytes "1";
  last_priority_version = none;
}

abbrev item : PriorityConfigItem
item = record { key = bytes "blue"; config = bytes "{}"; version = bytes "7" }

abbrev response : LoadResponse
response = record { config = bytes "{}"; version = bytes "2"; priority_configs = item ∷ [] }

abbrev serving : LoadIo
serving = record {
  ask = λ s. Reply.body (bytes "json");
  decode = λ b. some (if text_eq b (bytes "null") then none else some response);
  to_yaml = λ b. some b;
  temporary = bytes "config.yaml.1.tmp";
  write = none;
  rename = none;
  item_write = λ k. none;
  item_rename = λ k. none;
  entries = some (bytes "blue.yaml" ∷ bytes "green.yaml" ∷ bytes "notes.txt" ∷ []);
  stuck = λ n. false;
}

abbrev silent : LoadIo
silent = record serving { ask = λ s. Reply.no_reply (bytes "refused") }

abbrev files : Files
files = (bytes "canary/green.yaml", yaml_file (bytes "old")) ∷ []

-- The main file and that of the item are written, and the item that is not listed is removed.
loaded :
    load_config serving loader files
    ≡ Result.returned none
        (record loader {
          last_version = bytes "2";
          last_priority_version = some ((bytes "blue", bytes "7") ∷ []);
        })
        ((bytes "config.yaml", yaml_file (bytes "{}"))
          ∷ (bytes "canary/blue.yaml", yaml_file (bytes "{}"))
          ∷ [])
unfolding load_config text_eq
loaded = refl

-- The body null.
null_body :
    load_config (record serving { ask = λ s. Reply.body (bytes "null") }) loader files
    ≡ Result.crashed
unfolding load_config text_eq
null_body = refl

abbrev quiet_round : Round
quiet_round = record { io = silent; done = true }

refused : Silent silent
refused = λ s. (bytes "refused", refl)

asked_each_example :
    (k : ℕ) × (k < 3)
    × (get_elem?
          (asked (quiet_round ∷ quiet_round ∷ quiet_round ∷ []) (Progress.running loader files))
          k
        ≡ some (some (bytes "http://a")))
unfolding next_index
asked_each_example =
    asked_each (quiet_round ∷ quiet_round ∷ quiet_round ∷ []) loader files 0 (omega arith)
      (omega arith) (refused, (refused, (refused, tt))) (omega arith)

run_loop-Silent_example :
    (after : CtrlConfigLoader) × (run_loop
        (quiet_round ∷ quiet_round ∷ [])
        (Progress.running loader files)
      ≡ Progress.running after files)
    × (after.ctrl_service ≡ loader.ctrl_service)
    × (next_index after ≡ 0)
unfolding next_index
run_loop-Silent_example =
    run_loop-Silent (quiet_round ∷ quiet_round ∷ []) loader files (omega arith)
      (refused, (refused, tt))
