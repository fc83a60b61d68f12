-- ===== src/Agent/Config/Resolved.antt =====
-- Where each value of the configuration comes from: the flags, the file, the environment and the
-- default, the first of them that has one.
mod Sources
mod Laws
mod Errors
mod Tests
use helvilette.Prelude.{
  String, ◌≡◌, ◌≢◌, refl, sym, ap, ◌∙◌, ◌⊎◌, inl, inr, Option, none, some, Result, ok, err, List,
  [], ◌∷◌, arith, Result-cases, Option-cases, text-cases, eq_iff, ◌==◌, if◌then◌else◌,
}
use helvilette.Prelude.Dict.{Dict, lookup, NodupKeys, lookup-nil}
use helvilette.FilePath.{◌<>◌}
use helvilette.Agent.{AgentConfiguration}
use helvilette.Agent.Config.{
  State, Host, Flags, Field, RawConfig, empty_raw, ConfigError, Decoded, value, eof, failed,
  othela_url, node_id, workspace_dir, env_name, flag_name, raw_field, flag_field, source_env,
  source_cli, source_config_file, source_default, source_default_hostname, fallback_node_id,
  default_config, default_provenance, parse_labels, apply_env, apply_flags, apply_raw, merge_labels,
  apply_file, load_config, format_url,
}
use helvilette.Agent.Config.Stages.{
  field_of, interval_of, label_of, given, labelled, timed, merge_labels-field,
  merge_labels-interval, merge_labels-label,
}
use helvilette.Agent.Config.Precedence.{
  overridden-field, overridden-interval, overridden-label, raw_texts, raw_texts-field,
  raw_texts-interval, raw_texts-label,
}

-- The first text that is not empty, with the source that it stands beside.
abbrev pub first_given : List (String × String) → String × Option String → String × Option String
first_given [] default = default
first_given ((v, source) ∷ candidates) default = given v source (first_given candidates default)

-- The first source that has the label.
abbrev pub first_label : List (Option String × String) → Option String × Option String
first_label [] = (none, none)
first_label ((found, source) ∷ candidates) = labelled found source (first_label candidates)

module _ {Duration : Type 0} (host : Host Duration) where
  abbrev pub default_of : Field → String × Option String
  default_of othela_url = ("http://localhost:8080/api/v1", some source_default)
  default_of node_id = elim host.hostname [
    | none ↦ (fallback_node_id, some source_default)
    | some h ↦
        if h == ""
        then (fallback_node_id, some source_default)
        else (h, some source_default_hostname)
  ]
  default_of workspace_dir = ("/tmp/helvilette", some source_default)

  -- The flag, the file, the environment, and then the default.
  abbrev pub resolved_field : Flags → RawConfig → Field → String × Option String
  resolved_field flags raw f =
      first_given
        ((flag_field f flags, source_cli (flag_name f))
          ∷ (raw_field f raw, source_config_file)
          ∷ (host.getenv (env_name f), source_env (env_name f))
          ∷ [])
        (default_of f)

  abbrev pub resolved_label : Flags → RawConfig → String → Option String × Option String
  resolved_label flags raw k = first_label (
      (lookup k (parse_labels flags.labels), source_cli "labels")
      ∷ (lookup k raw.labels, source_config_file)
      ∷ (lookup k (parse_labels (host.getenv "AGENT_LABELS")), source_env "AGENT_LABELS")
      ∷ [])

  -- An interval that does not parse is passed over.
  abbrev pub resolved_interval : Flags → RawConfig → Duration × Option String
  resolved_interval flags raw = timed host flags.poll_interval (source_cli "poll-interval") (
      timed host raw.poll_interval source_config_file (
        timed host (host.getenv "POLL_INTERVAL") (source_env "POLL_INTERVAL")
          (host.five_seconds, some source_default)))

  -- Every value is the resolved one, with its source on record; the URL is in its normal form.
  pub record IsResolved (flags : Flags) (raw : RawConfig) (st : State Duration) : Type 0 where
    pub url : field_of othela_url st ≡ (
      format_url (resolved_field flags raw othela_url).0,
      (resolved_field flags raw othela_url).1,
    )
    pub id : field_of node_id st ≡ resolved_field flags raw node_id
    pub workspace : field_of workspace_dir st ≡ resolved_field flags raw workspace_dir
    pub interval : interval_of st ≡ resolved_interval flags raw
    pub labels : (k : String) → label_of k st ≡ resolved_label flags raw k

  -- What the file says: nothing, if there is none or it is empty.
  abbrev pub IsRead : String → RawConfig → Type 0
  IsRead path raw =
      ((path ≡ "") × (raw ≡ empty_raw))
      ⊎ ((path ≢ "")
          × ((content : String) × (host.read_file path ≡ ok content)
              × ((host.decode_yaml content ≡ value raw)
                  ⊎ ((host.decode_yaml content ≡ eof) × (raw ≡ empty_raw)))))

  -- The decoder gives a map for the labels: no key twice.
  abbrev pub DecodesMaps : Type 0
  DecodesMaps =
      (content : String) (raw : RawConfig)
      → host.decode_yaml content ≡ value raw
      → NodupKeys raw.labels
