-- ===== src/Server/Start.antt =====
-- The constructors of cmd/othela/server.go: `NewServer`, `NewServerWithLoader`, `NewServerWithJob`
-- and `NewServerWithConfig`. `now` is the decimal text of the Unix time, `env` the value of
-- HELV_TEST_REPO_URL.
pub mod Fallback
pub mod Dispatch
use helvilette.Prelude.{
  String, Bool, true, false, Option, none, some, Result, ok, err, List, [], ◌∷◌, ◌==◌,
  if◌then◌else◌,
}
use helvilette.FilePath.{◌<>◌}
use helvilette.Types.{Job, Report, no_job}
use helvilette.Storage.{NodeStore, ReportStore}
use helvilette.Storage.Memory.{
  memory_nodes, memory_reports, new_memory_node_store, new_memory_report_store,
}
use helvilette.Playbook.{Playbook}
use helvilette.Playbook.Loader.{Disk, Loader, Error, scan, load}
use helvilette.Server.{Server, test_repo_url}

abbrev pub mock_content : String
mock_content =
    "\n- name: Helvilette Sanity Check\n  hosts: localhost\n  connection: local\n  gather_facts: no\n  tasks:\n    - name: Say Hello\n      debug:\n        msg: \"Hello Wunjo! This is Helvilette Othela speaking.\"\n"

abbrev pub fallback_content : String
fallback_content =
    "\n- name: Helvilette Fallback Job\n  hosts: localhost\n  connection: local\n  gather_facts: no\n  tasks:\n    - name: No playbooks found\n      debug:\n        msg: \"No playbooks available in data/playbooks/\"\n"

abbrev pub mock_job : String → String → Job
mock_job now content = record no_job { job_id = "job-" <> now; playbook_content = content }

-- The job that `handleSync` falls back to when there are playbooks.
abbrev pub gitops_job : String → Playbook → String → Job
gitops_job env pb content = record {
  job_id = "job-" <> pb.id;
  repo_url = test_repo_url env;
  version = "main";
  playbook_content = content;
  playbook_path = "playbook.yml";
  extra_vars = [];
}

first_job : Disk → String → Loader → Result Error (List Playbook) → Job
first_job disk env l (err e) = no_job
first_job disk env l (ok []) = no_job
first_job disk env l (ok (pb ∷ pbs)) = elim (load disk l pb.id) [
  | err e ↦ no_job
  | ok content ↦ gitops_job env pb content
]

abbrev scanned : Result Error (List Playbook) → List Playbook
scanned (err e) = []
scanned (ok pbs) = pbs

-- What a server takes from its loader: the loader after the scan, the playbooks and the job.
pub record Loaded : Type 0 where
  pub loader : Loader
  pub playbooks : List Playbook
  pub current_job : Job

unfoldable pub load_playbooks : Disk → String → String → Loader → Loaded
unfolding first_job
load_playbooks disk env now l =
    let (l', result) = scan disk l in
    let job = first_job disk env l' result in
    record {
      loader = l';
      playbooks = scanned result;
      current_job = if job.job_id == "" then mock_job now fallback_content else job;
    }

abbrev pub MemoryServer : Type 0
MemoryServer = Server memory_nodes memory_reports

abbrev pub new_server : String → MemoryServer
new_server now = record {
  loader = none;
  current_job = mock_job now mock_content;
  playbooks = [];
  nodes = new_memory_node_store;
  reports = new_memory_report_store;
  ready = true;
  debug_mode = false;
}

abbrev pub new_server_with_job : Job → MemoryServer
new_server_with_job job = record {
  loader = none;
  current_job = job;
  playbooks = [];
  nodes = new_memory_node_store;
  reports = new_memory_report_store;
  ready = true;
  debug_mode = false;
}

unfoldable pub new_server_with_loader : Disk → String → String → Loader → MemoryServer
new_server_with_loader disk env now l =
    let loaded = load_playbooks disk env now l in
    record {
      loader = some loaded.loader;
      current_job = loaded.current_job;
      playbooks = loaded.playbooks;
      nodes = new_memory_node_store;
      reports = new_memory_report_store;
      ready = true;
      debug_mode = false;
    }

-- A store of a configuration: an adapter and its state.
pub record NodeBackend : Type 1 where
  pub store : NodeStore
  pub state : store.State

pub record ReportBackend : Type 1 where
  pub store : ReportStore
  pub state : store.State

pub record ServerConfig : Type 1 where
  pub node_store : Option NodeBackend
  pub report_store : Option ReportBackend
  pub loader : Option Loader
  pub debug_mode : Bool

abbrev pub node_backend : Option NodeBackend → NodeBackend
node_backend none = record { store = memory_nodes; state = new_memory_node_store }
node_backend (some b) = b

abbrev pub report_backend : Option ReportBackend → ReportBackend
report_backend none = record { store = memory_reports; state = new_memory_report_store }
report_backend (some b) = b

-- The parts of a server that come from an optional loader.
abbrev from_loader : Disk → String → String → Option Loader → Option Loader × List Playbook × Job
from_loader disk env now none = (none, [], no_job)
from_loader disk env now (some l) =
    let loaded = load_playbooks disk env now l in
    (some loaded.loader, loaded.playbooks, loaded.current_job)

unfoldable pub new_server_with_config :
    Disk
    → String
    → String
    → (cfg : ServerConfig)
    → Server (node_backend cfg.node_store).store (report_backend cfg.report_store).store
new_server_with_config disk env now cfg =
    let parts = from_loader disk env now cfg.loader in
    record {
      loader = parts.0;
      current_job = parts.2;
      playbooks = parts.1;
      nodes = (node_backend cfg.node_store).state;
      reports = (report_backend cfg.report_store).state;
      ready = true;
      debug_mode = cfg.debug_mode;
    }
