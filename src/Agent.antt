-- ===== src/Agent.antt =====
-- cmd/agent/main.go: the node agent. `Duration` stands for time.Duration.
pub mod Settings
pub mod Config
pub mod Display
pub mod Execute
pub mod Client
pub mod Process
pub mod Events
pub mod Main
pub mod Sample
use helvilette.Prelude.{String, Result, Option}
use helvilette.Prelude.Dict.{Dict}

pub record AgentConfiguration (Duration : Type 0) : Type 0 where
  pub othela_url : String
  pub node_id : String
  pub poll_interval : Duration
  pub workspace_dir : String
  pub labels : Dict String

-- The source of each value, by the name of its field; a label's name is "labels.<key>".
abbrev pub ConfigProvenance : Type 0
ConfigProvenance = Dict String
