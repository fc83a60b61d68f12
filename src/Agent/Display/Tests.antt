-- ===== src/Agent/Display/Tests.antt =====
-- A configuration as it is printed, and the same one with its labels in another order.
use helvilette.Prelude.{ℕ, String, ◌≡◌, refl, some, [], ◌∷◌, arith, eq_iff}
use helvilette.Prelude.Dict.{Dict, lookup, get}
use helvilette.Prelude.Sort.{sort_strings}
use helvilette.Agent.{AgentConfiguration, ConfigProvenance}
use helvilette.Agent.Display.{
  keys, label_fields, config_fields, source_of, widths, format_fields, format_config,
}
use helvilette.Agent.Display.Effective.{log_effective_config}
use helvilette.Agent.Display.Laws.{IsSameConfig, format_config_same}

abbrev config : Dict String → AgentConfiguration ℕ
config labels = record {
  othela_url = "http://o/api/v1";
  node_id = "web-1";
  poll_interval = 5;
  workspace_dir = "/srv";
  labels = labels;
}

abbrev labels : Dict String
labels = ("role", "web") ∷ ("env", "prod") ∷ []

abbrev swapped : Dict String
swapped = ("env", "prod") ∷ ("role", "web") ∷ []

abbrev sources : ConfigProvenance
sources = ("nodeID", "config-file") ∷ []

format_config_test :
    format_config (λ d. "5s") (config labels) sources
    ≡ "othelaURL    = http://o/api/v1  source=default\nnodeID       = web-1            source=config-file\npollInterval = 5s               source=default\nworkspaceDir = /srv             source=default\nlabels.env   = prod             source=default\nlabels.role  = web              source=default\n"
unfolding format_config format_fields config_fields label_fields widths keys sort_strings source_of
    get
format_config_test = refl

log_effective_config_test :
    log_effective_config (λ d. "5s") (record (config []) { node_id = "agent-unknown" }) sources
    ≡ record {
      config =
          ("othelaURL", "http://o/api/v1")
          ∷ ("nodeID", "agent-unknown")
          ∷ ("pollInterval", "5s")
          ∷ ("workspaceDir", "/srv")
          ∷ [];
      config_sources =
          ("othelaURL", "default")
          ∷ ("nodeID", "config-file")
          ∷ ("pollInterval", "default")
          ∷ ("workspaceDir", "default")
          ∷ [];
      warning = some "agent-unknown";
    }
unfolding log_effective_config config_fields label_fields keys sort_strings source_of get
log_effective_config_test = refl

labels-IsSame : IsSameConfig (config labels) (config swapped)
unfolding lookup
labels-IsSame = record {
  url = refl;
  id = refl;
  interval = refl;
  workspace = refl;
  labels = λ k. ground (arith, eq_iff "role" k, eq_iff "env" k, eq_iff "role" "env");
  nodup = (refl, (refl, tt));
  nodup' = (refl, (refl, tt));
}

format_config_same_example :
    format_config (λ d. "5s") (config labels) sources
    ≡ format_config (λ d. "5s") (config swapped) sources
format_config_same_example =
    format_config_same (λ d. "5s") (config labels) (config swapped) sources sources labels-IsSame
      (λ k. refl)
