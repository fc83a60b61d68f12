-- ===== src/Manifest.antt =====
-- pkg/manifest/types.go: a parsed helvilette.yml.
pub mod Validation
pub mod Matching
pub mod Parser
mod Tests
use helvilette.Prelude.{String, List}
use helvilette.Prelude.Dict.{Dict}

pub record Metadata : Type 0 where
  pub name : String
  pub namespace : String
  pub labels : Dict String
  pub description : String

pub record AnsibleConfig : Type 0 where
  pub vault_password_file : String
  pub extra_vars : Dict String

pub record NodeGroup : Type 0 where
  pub name : String
  pub node_selector : Dict String
  pub ansible : AnsibleConfig

pub record Spec : Type 0 where
  pub repo : String
  pub branch : String
  pub playbook : String
  pub node_groups : List NodeGroup

pub record Manifest : Type 0 where
  pub api_version : String
  pub kind : String
  pub metadata : Metadata
  pub spec : Spec
