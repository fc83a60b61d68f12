-- ===== src/Agent/Display/Effective.antt =====
-- `logEffectiveConfig` of cmd/agent/main.go: the messages as values.
use helvilette.Prelude.{String, Option, none, some, List, [], ◌∷◌, ◌==◌, if◌then◌else◌}
use helvilette.Agent.{AgentConfiguration, ConfigProvenance}
use helvilette.Agent.Settings.{fallback_node_id}
use helvilette.Agent.Display.{config_fields, source_of}

-- The message "effective configuration", and the node's name in the warning that it is the fallback.
pub record ConfigLog : Type 0 where
  pub config : List (String × String)
  pub config_sources : List (String × String)
  pub warning : Option String

source_fields : ConfigProvenance → List (String × String) → List (String × String)
source_fields provenance [] = []
source_fields provenance ((name, v) ∷ fields) =
    (name, source_of provenance name) ∷ source_fields provenance fields

unfoldable pub log_effective_config :
    {Duration : Type 0}
    → (Duration → String)
    → AgentConfiguration Duration
    → ConfigProvenance
    → ConfigLog
unfolding source_fields
log_effective_config show config provenance =
    let fields = config_fields show config in
    record {
      config = fields;
      config_sources = source_fields provenance fields;
      warning = if config.node_id == fallback_node_id then some config.node_id else none;
    }
