-- ===== src/Agent/Settings.antt =====
-- What the configuration of cmd/agent/main.go comes from: the flags, the YAML file and the machine; and
-- the names of its fields and sources.
use helvilette.Prelude.{String, Option, Result, []}
use helvilette.Prelude.Dict.{Dict}
use helvilette.FilePath.{◌<>◌}

abbrev pub source_default : String
source_default = "default"

abbrev pub source_default_hostname : String
source_default_hostname = "default(hostname)"

abbrev pub source_config_file : String
source_config_file = "config-file"

abbrev pub source_env : String → String
source_env name = "env(" <> name <> ")"

abbrev pub source_cli : String → String
source_cli flag = "cli(--" <> flag <> ")"

abbrev pub fallback_node_id : String
fallback_node_id = "agent-unknown"

-- The struct that the YAML file is decoded into.
pub record RawConfig : Type 0 where
  pub othela_url : String
  pub node_id : String
  pub poll_interval : String
  pub workspace_dir : String
  pub labels : Dict String

abbrev pub empty_raw : RawConfig
empty_raw = record {
  othela_url = "";
  node_id = "";
  poll_interval = "";
  workspace_dir = "";
  labels = [];
}

-- What the YAML decoder, which refuses unknown keys, says of a file. `eof` is an empty file.
pub data Decoded : Type 0 where
  value : RawConfig → Decoded
  eof : Decoded
  failed : String → Decoded

-- The machine: `hostname` is `none` for an error, and so is `parse_duration`.
pub record Host (Duration : Type 0) : Type 0 where
  pub hostname : Option String
  pub getenv : String → String
  pub read_file : String → Result String String
  pub decode_yaml : String → Decoded
  pub parse_duration : String → Option Duration
  pub five_seconds : Duration

pub data ConfigError : Type 0 where
  unreadable unparsable invalid_poll_interval : String → ConfigError

-- The flags, "" where one is not given.
pub record Flags : Type 0 where
  pub config : String
  pub othela_url : String
  pub node_id : String
  pub poll_interval : String
  pub workspace_dir : String
  pub labels : String

-- The fields that are plain texts, which each source overrides in the same way.
pub data Field : Type 0 where
  othela_url node_id workspace_dir : Field

abbrev pub field_name : Field → String
field_name othela_url = "othelaURL"
field_name node_id = "nodeID"
field_name workspace_dir = "workspaceDir"

abbrev pub env_name : Field → String
env_name othela_url = "OTHELA_URL"
env_name node_id = "NODE_ID"
env_name workspace_dir = "WORKSPACE_DIR"

abbrev pub flag_name : Field → String
flag_name othela_url = "othela-url"
flag_name node_id = "node-id"
flag_name workspace_dir = "workspace-dir"

abbrev pub raw_field : Field → RawConfig → String
raw_field othela_url raw = raw.othela_url
raw_field node_id raw = raw.node_id
raw_field workspace_dir raw = raw.workspace_dir

abbrev pub flag_field : Field → Flags → String
flag_field othela_url flags = flags.othela_url
flag_field node_id flags = flags.node_id
flag_field workspace_dir flags = flags.workspace_dir
