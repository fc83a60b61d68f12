-- ===== src/Types.antt =====
-- pkg/types/types.go: what Othela and the agents send to one another. The JSON names of the fields
-- are not modelled.
use helvilette.Prelude.{String, []}
use helvilette.Prelude.Dict.{Dict}

pub record Job : Type 0 where
  pub job_id : String
  pub repo_url : String
  pub version : String
  pub playbook_content : String
  pub playbook_path : String
  pub extra_vars : Dict String

-- `task_logs` is the raw JSON text.
pub record Report : Type 0 where
  pub node_id : String
  pub job_id : String
  pub status : String
  pub task_logs : String

-- Go's zero value of a `Job`.
abbrev pub no_job : Job
no_job = record {
  job_id = "";
  repo_url = "";
  version = "";
  playbook_content = "";
  playbook_path = "";
  extra_vars = [];
}
