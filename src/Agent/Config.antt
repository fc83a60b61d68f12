-- ===== src/Agent/Config.antt =====
-- `LoadConfig` of cmd/agent/main.go and what it calls.
pub mod Url
mod Keys
mod Parse
mod Stages
mod Precedence
mod Resolved
mod Tests
use Prim.Native.String
use helvilette.Prelude.{
  String, Bool, true, false, Option, none, some, Result, ok, err, List, [], ◌∷◌, ◌==◌, not,
  if◌then◌else◌,
}
use helvilette.Prelude.Dict.{Dict, insert}
use helvilette.Prelude.Text.{split, cut, trim_space, trim_slash, has_prefix, has_suffix}
use helvilette.FilePath.{◌<>◌}
use helvilette.Agent.{AgentConfiguration, ConfigProvenance}
pub use helvilette.Agent.Settings.{
  source_default, source_default_hostname, source_config_file, source_env, source_cli,
  fallback_node_id, RawConfig, empty_raw, Decoded, Host, ConfigError, Flags, Field, field_name,
  env_name, flag_name, raw_field, flag_field, value, eof, failed, unreadable, unparsable,
  invalid_poll_interval, othela_url, node_id, workspace_dir,
}

-- One `labels[TrimSpace(kv[0])] = TrimSpace(kv[1])`, for a pair with a "=".
add_pair : Option (String × String) → Dict String → Dict String
add_pair none labels = labels
add_pair (some (k, v)) labels = insert (trim_space k) (trim_space v) labels

add_pairs : List String → Dict String → Dict String
add_pairs [] labels = labels
add_pairs (pair ∷ pairs) labels = add_pairs pairs (add_pair (cut b'=' pair) labels)

unfoldable pub parse_labels : String → Dict String
unfolding add_pairs add_pair
parse_labels s = add_pairs (split b',' s) []

-- The configuration so far, and where its values come from.
abbrev pub State : Type 0 → Type 0
State Duration = AgentConfiguration Duration × ConfigProvenance

module _ {Duration : Type 0} where
  abbrev pub set_field : Field → String → AgentConfiguration Duration → AgentConfiguration Duration
  set_field othela_url v c = record c { othela_url = v }
  set_field node_id v c = record c { node_id = v }
  set_field workspace_dir v c = record c { workspace_dir = v }

  -- `if v != "" { config.F = v; provenance[...] = source }`
  unfoldable pub override : Field → String → String → State Duration → State Duration
  override f v source (c, p) =
      if v == "" then (c, p) else (set_field f v c, insert (field_name f) source p)

  set_interval : Option Duration → String → State Duration → State Duration
  set_interval none source st = st
  set_interval (some d) source (c, p) =
      (record c { poll_interval = d }, insert "pollInterval" source p)

  -- An interval of the environment or of a flag that does not parse is passed over.
  unfoldable pub override_interval :
      Host Duration → String → String → State Duration → State Duration
  unfolding set_interval
  override_interval host v source st =
      if v == "" then st else set_interval (host.parse_duration v) source st

  -- The loops that merge labels, one key at a time.
  unfoldable pub merge_labels : Dict String → String → State Duration → State Duration
  merge_labels [] source st = st
  merge_labels ((k, v) ∷ labels) source (c, p) =
      merge_labels labels source
        (record c { labels = insert k v c.labels }, insert ("labels." <> k) source p)

  unfoldable pub override_labels : String → String → State Duration → State Duration
  override_labels s source st = if s == "" then st else merge_labels (parse_labels s) source st

  -- `defaultNodeID`
  unfoldable pub default_node_id : Host Duration → String × Bool
  default_node_id host = elim host.hostname [
    | none ↦ (fallback_node_id, false)
    | some h ↦ if h == "" then (fallback_node_id, false) else (h, true)
  ]

  unfoldable pub default_config : Host Duration → AgentConfiguration Duration
  default_config host = record {
    othela_url = "http://localhost:8080/api/v1";
    node_id = (default_node_id host).0;
    poll_interval = host.five_seconds;
    workspace_dir = "/tmp/helvilette";
    labels = [];
  }

  unfoldable pub default_provenance : Host Duration → ConfigProvenance
  default_provenance host =
      ("othelaURL", source_default)
      ∷ ("nodeID", if (default_node_id host).1 then source_default_hostname else source_default)
      ∷ ("pollInterval", source_default)
      ∷ ("workspaceDir", source_default)
      ∷ []

  abbrev env_field : Host Duration → Field → State Duration → State Duration
  env_field host f = override f (host.getenv (env_name f)) (source_env (env_name f))

  -- 1. The environment.
  unfoldable pub apply_env : Host Duration → State Duration → State Duration
  apply_env host st = override_labels (host.getenv "AGENT_LABELS") (source_env "AGENT_LABELS") (
      env_field host workspace_dir (
        override_interval host (host.getenv "POLL_INTERVAL") (source_env "POLL_INTERVAL")
          (env_field host node_id (env_field host othela_url st))))

  abbrev raw_override : RawConfig → Field → State Duration → State Duration
  raw_override raw f = override f (raw_field f raw) source_config_file

  -- The interval of the file has to parse.
  file_interval : Host Duration → String → State Duration → Result ConfigError (State Duration)
  file_interval host v (c, p) = if v == "" then ok (c, p) else elim (host.parse_duration v) [
    | none ↦ err (invalid_poll_interval v)
    | some d ↦ ok (record c { poll_interval = d }, insert "pollInterval" source_config_file p)
  ]

  unfoldable pub apply_raw :
      Host Duration → RawConfig → State Duration → Result ConfigError (State Duration)
  unfolding file_interval
  apply_raw host raw st =
      elim (file_interval host raw.poll_interval (
        raw_override raw workspace_dir
          (raw_override raw node_id (raw_override raw othela_url st)))) [
            | err e ↦ err e
            | ok st' ↦ ok (merge_labels raw.labels source_config_file st')
          ]

  apply_decoded : Host Duration → Decoded → State Duration → Result ConfigError (State Duration)
  apply_decoded host (failed e) st = err (unparsable e)
  apply_decoded host eof st = apply_raw host empty_raw st
  apply_decoded host (value raw) st = apply_raw host raw st

  -- 2. The YAML file. What `LoadConfig` returns beside an error is left out: its caller exits.
  unfoldable pub apply_file :
      Host Duration → String → State Duration → Result ConfigError (State Duration)
  unfolding apply_decoded
  apply_file host path st = if path == "" then ok st else elim (host.read_file path) [
    | err e ↦ err (unreadable e)
    | ok content ↦ apply_decoded host (host.decode_yaml content) st
  ]

  abbrev flag_override : Flags → Field → State Duration → State Duration
  flag_override flags f = override f (flag_field f flags) (source_cli (flag_name f))

  -- 3. The flags.
  unfoldable pub apply_flags : Host Duration → Flags → State Duration → State Duration
  apply_flags host flags st = override_labels flags.labels (source_cli "labels") (
      flag_override flags workspace_dir (
        override_interval host flags.poll_interval (source_cli "poll-interval")
          (flag_override flags node_id (flag_override flags othela_url st))))

-- The end of `LoadConfig`: a scheme in front, no slash behind, and the path of the API.
unfoldable pub add_scheme : String → String
add_scheme url = if not (has_prefix url "http") then "http://" <> url else url

unfoldable pub add_api_path : String → String
add_api_path url = if not (has_suffix url "/api/v1") then url <> "/api/v1" else url

unfoldable pub format_url : String → String
format_url url = add_api_path (trim_slash (add_scheme url))

unfoldable pub load_config :
    {Duration : Type 0} → Host Duration → Flags → Result ConfigError (State Duration)
load_config host flags =
    elim (apply_file host flags.config
      (apply_env host (default_config host, default_provenance host))) [
        | err e ↦ err e
        | ok st ↦
            let (c, p) = apply_flags host flags st in
            ok (record c { othela_url = format_url c.othela_url }, p)
      ]
