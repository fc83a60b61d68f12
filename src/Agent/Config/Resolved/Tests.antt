-- ===== src/Agent/Config/Resolved/Tests.antt =====
-- A configuration from all four sources, and the theorems about `LoadConfig` there.
use mathlib.Core.Path.{subst}
use helvilette.Prelude.{ℕ, ◌≡◌, ◌↔◌, refl, none, some, ok, err, [], ◌∷◌, ◌==◌, if◌then◌else◌, arith}
use helvilette.Prelude.Dict.{lookup, insert, NodupKeys}
use helvilette.Prelude.Text.{split, cut, trim_space, trim_slash, has_prefix, has_suffix}
use helvilette.Agent.Config.{
  State, Host, Flags, RawConfig, unreadable, value, load_config, apply_file, apply_env, apply_flags,
  apply_decoded, apply_raw, file_interval, override, override_interval, override_labels,
  merge_labels, parse_labels, default_config, default_provenance, default_node_id, format_url,
  add_scheme, add_api_path,
}
use helvilette.Agent.Config.Resolved.{IsResolved, IsRead, DecodesMaps}
use helvilette.Agent.Config.Resolved.Laws.{load_config-IsResolved}
use helvilette.Agent.Config.Resolved.Errors.{IsFault, load_config_iff}

abbrev raw : RawConfig
raw = record {
  othela_url = "othela:8080/";
  node_id = "file-node";
  poll_interval = "9s";
  workspace_dir = "";
  labels = ("role", "web") ∷ [];
}

-- The environment names a node, another interval and two labels.
abbrev host : Host ℕ
host = record {
  hostname = some "machine";
  getenv = λ name.
      if name == "NODE_ID"
      then "env-node"
      else if name == "POLL_INTERVAL"
      then "7s"
      else if name == "AGENT_LABELS"
      then "role=db, zone = a"
      else "";
  read_file = λ path. if path == "agent.yaml" then ok "content" else err "no such file";
  decode_yaml = λ content. value raw;
  parse_duration = λ text. if text == "7s" then some 7 else if text == "9s" then some 9 else none;
  five_seconds = 5;
}

abbrev no_flags : Flags
no_flags = record {
  config = "agent.yaml";
  othela_url = "";
  node_id = "";
  poll_interval = "soon";
  workspace_dir = "/srv";
  labels = "";
}

abbrev loaded : State ℕ
loaded = (
  record {
    othela_url = "http://othela:8080/api/v1";
    node_id = "file-node";
    poll_interval = 9;
    workspace_dir = "/srv";
    labels = ("role", "web") ∷ ("zone", "a") ∷ [];
  },
  ("othelaURL", "config-file")
      ∷ ("nodeID", "config-file")
      ∷ ("pollInterval", "config-file")
      ∷ ("workspaceDir", "cli(--workspace-dir)")
      ∷ ("labels.role", "config-file")
      ∷ ("labels.zone", "env(AGENT_LABELS)")
      ∷ [],
)

load_config_test : load_config host no_flags ≡ ok loaded
unfolding load_config apply_file apply_decoded apply_raw file_interval apply_env apply_flags
    override override_interval override_labels merge_labels parse_labels default_config
    default_provenance default_node_id insert format_url add_scheme add_api_path split cut
    trim_space trim_slash has_prefix has_suffix
load_config_test = refl

host-DecodesMaps : DecodesMaps host
unfolding lookup
host-DecodesMaps content given e =
    let same : raw.labels ≡ given.labels = ground arith in subst NodupKeys same (refl, tt)

load_config-IsResolved_example :
    (given : RawConfig) × IsRead host "agent.yaml" given × IsResolved host no_flags given loaded
load_config-IsResolved_example =
    load_config-IsResolved host no_flags loaded host-DecodesMaps load_config_test

load_config_iff_example :
    (load_config host (record no_flags { config = "agent.yml" }) ≡ err (unreadable "no such file"))
    ↔ IsFault host "agent.yml" (unreadable "no such file")
load_config_iff_example =
    load_config_iff host (record no_flags { config = "agent.yml" }) (unreadable "no such file")
