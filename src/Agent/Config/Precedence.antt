-- ===== src/Agent/Config/Precedence.antt =====
-- Which source wins each value of the configuration, and what `ConfigProvenance` names.
use helvilette.Prelude.{String, ◌≡◌, ap, ◌∙◌, arith}
use helvilette.Prelude.Dict.{lookup}
use helvilette.Agent.Config.{
  State, Host, Field, RawConfig, othela_url, node_id, workspace_dir, raw_field, source_config_file,
  override, override_interval, override_labels, parse_labels,
}
use helvilette.Agent.Config.Stages.{
  field_of, interval_of, label_of, given, labelled, timed, override-field, override-other,
  override-label, override-interval, override_interval-field, override_interval-label,
  override_interval-interval, override_labels-field, override_labels-interval,
  override_labels-label,
}

-- The environment and the flags override the values in one way: the texts `v` with the sources
-- `source`, the interval `i` and the labels `l`.
module _ {Duration : Type 0} (host : Host Duration) (v source : Field → String)
    (i i_source l l_source : String) (st : State Duration) where
  abbrev after_url : State Duration
  after_url = override othela_url (v othela_url) (source othela_url) st

  abbrev after_id : State Duration
  after_id = override node_id (v node_id) (source node_id) after_url

  abbrev after_interval : State Duration
  after_interval = override_interval host i i_source after_id

  abbrev after_texts : State Duration
  after_texts = override workspace_dir (v workspace_dir) (source workspace_dir) after_interval

  abbrev pub overridden : State Duration
  overridden = override_labels l l_source after_texts

  pub overridden-field :
      (f : Field) → field_of f overridden ≡ given (v f) (source f) (field_of f st)
  overridden-field othela_url =
      override_labels-field othela_url l l_source after_texts
      ∙ override-other othela_url workspace_dir (v workspace_dir) (source workspace_dir)
          after_interval (ground arith)
      ∙ override_interval-field othela_url host i i_source after_id
      ∙ override-other othela_url node_id (v node_id) (source node_id) after_url (ground arith)
      ∙ override-field othela_url (v othela_url) (source othela_url) st
  overridden-field node_id =
      override_labels-field node_id l l_source after_texts
      ∙ override-other node_id workspace_dir (v workspace_dir) (source workspace_dir) after_interval
          (ground arith)
      ∙ override_interval-field node_id host i i_source after_id
      ∙ override-field node_id (v node_id) (source node_id) after_url
      ∙ ap (given (v node_id) (source node_id))
          (override-other node_id othela_url (v othela_url) (source othela_url) st (ground arith))
  overridden-field workspace_dir =
      override_labels-field workspace_dir l l_source after_texts
      ∙ override-field workspace_dir (v workspace_dir) (source workspace_dir) after_interval
      ∙ ap (given (v workspace_dir) (source workspace_dir)) (
          override_interval-field workspace_dir host i i_source after_id
          ∙ override-other workspace_dir node_id (v node_id) (source node_id) after_url
              (ground arith)
          ∙ override-other workspace_dir othela_url (v othela_url) (source othela_url) st
              (ground arith))

  pub overridden-interval : interval_of overridden ≡ timed host i i_source (interval_of st)
  overridden-interval =
      override_labels-interval l l_source after_texts
      ∙ override-interval workspace_dir (v workspace_dir) (source workspace_dir) after_interval
      ∙ override_interval-interval host i i_source after_id
      ∙ ap (timed host i i_source) (
          override-interval node_id (v node_id) (source node_id) after_url
          ∙ override-interval othela_url (v othela_url) (source othela_url) st)

  pub overridden-label :
      (k : String)
      → label_of k overridden ≡ labelled (lookup k (parse_labels l)) l_source (label_of k st)
  overridden-label k =
      override_labels-label k l l_source after_texts
      ∙ ap (labelled (lookup k (parse_labels l)) l_source) (
          override-label k workspace_dir (v workspace_dir) (source workspace_dir) after_interval
          ∙ override_interval-label k host i i_source after_id
          ∙ override-label k node_id (v node_id) (source node_id) after_url
          ∙ override-label k othela_url (v othela_url) (source othela_url) st)

-- The file's three texts.
module _ {Duration : Type 0} (raw : RawConfig) (st : State Duration) where
  abbrev raw_url : State Duration
  raw_url = override othela_url (raw_field othela_url raw) source_config_file st

  abbrev raw_id : State Duration
  raw_id = override node_id (raw_field node_id raw) source_config_file raw_url

  abbrev pub raw_texts : State Duration
  raw_texts = override workspace_dir (raw_field workspace_dir raw) source_config_file raw_id

  pub raw_texts-field :
      (f : Field)
      → field_of f raw_texts ≡ given (raw_field f raw) source_config_file (field_of f st)
  raw_texts-field othela_url =
      override-other othela_url workspace_dir (raw_field workspace_dir raw) source_config_file
        raw_id (ground arith)
      ∙ override-other othela_url node_id (raw_field node_id raw) source_config_file raw_url
          (ground arith)
      ∙ override-field othela_url (raw_field othela_url raw) source_config_file st
  raw_texts-field node_id =
      override-other node_id workspace_dir (raw_field workspace_dir raw) source_config_file raw_id
        (ground arith)
      ∙ override-field node_id (raw_field node_id raw) source_config_file raw_url
      ∙ ap (given (raw_field node_id raw) source_config_file) (
          override-other node_id othela_url (raw_field othela_url raw) source_config_file st
            (ground arith))
  raw_texts-field workspace_dir =
      override-field workspace_dir (raw_field workspace_dir raw) source_config_file raw_id
      ∙ ap (given (raw_field workspace_dir raw) source_config_file) (
          override-other workspace_dir node_id (raw_field node_id raw) source_config_file raw_url
            (ground arith)
          ∙ override-other workspace_dir othela_url (raw_field othela_url raw) source_config_file st
              (ground arith))

  pub raw_texts-interval : interval_of raw_texts ≡ interval_of st
  raw_texts-interval =
      override-interval workspace_dir (raw_field workspace_dir raw) source_config_file raw_id
      ∙ override-interval node_id (raw_field node_id raw) source_config_file raw_url
      ∙ override-interval othela_url (raw_field othela_url raw) source_config_file st

  pub raw_texts-label : (k : String) → label_of k raw_texts ≡ label_of k st
  raw_texts-label k =
      override-label k workspace_dir (raw_field workspace_dir raw) source_config_file raw_id
      ∙ override-label k node_id (raw_field node_id raw) source_config_file raw_url
      ∙ override-label k othela_url (raw_field othela_url raw) source_config_file st
