-- ===== src/System/Deployed/Sample.antt =====
-- A disk whose one playbook has a group for the labels of an agent, and names a branch.
use helvilette.Prelude.{
  ℕ, String, true, false, ◌≡◌, ◌≢◌, refl, inl, some, none, ok, [], ◌∷◌, Bool, arith, eq_iff, ◌==◌,
  if◌then◌else◌,
}
use helvilette.Prelude.Dict.{get, lookup}
use helvilette.Types.{Job, Report}
use helvilette.Manifest.{NodeGroup, Manifest}
use helvilette.Manifest.Matching.{is_subset}
use helvilette.Manifest.Matching.First.{FirstMatch}
use helvilette.Playbook.{Playbook}
use helvilette.Playbook.Loader.{Disk, scan}
use helvilette.Playbook.Loader.Sample.{scanning, disk, loader, nginx, sample_manifest}
use helvilette.Server.{manifest_job}
use helvilette.Server.Sync.{IsFirstMatch}
use helvilette.Server.Start.{ServerConfig}
use helvilette.Server.Routes.{register_node, sync, report}
use helvilette.Git.{
  ensure_repo, open_or_clone_repo, open_and_fetch_repo, sync_worktree, checkout_version,
}
use helvilette.Agent.{AgentConfiguration}
use helvilette.Agent.Sample.{World, machine}
use helvilette.Agent.Execute.{execute_playbook, prepare, find_source, run_ansible, write_vars}
use helvilette.Agent.Execute.Laws.{IsWritable}
use helvilette.System.{Wire, IsWired, arriving}
use helvilette.System.Sample.{compacted}
use helvilette.System.Steps.{run_report, run_once, IsRunReport}

abbrev pub group : NodeGroup
group = record {
  name = "edge";
  node_selector = ("role", "edge") ∷ [];
  ansible = record { vault_password_file = ""; extra_vars = [] };
}

-- The branch before and after an update.
abbrev pub branch_of : Bool → String
branch_of false = "main"
branch_of true = "v2"

abbrev pub fleet : Bool → Manifest
fleet updated = record sample_manifest {
  spec = record {
    repo = "repo.git";
    branch = branch_of updated;
    playbook = "site.yml";
    node_groups = group ∷ [];
  };
}

abbrev pub disk_of : Bool → Disk
disk_of updated = record disk { unmarshal = λ text. ok (fleet updated) }

abbrev pub nginx_of : Bool → Playbook
nginx_of updated = record nginx { manifest = some (fleet updated) }

pub scanned :
    (updated : Bool) → (scan (disk_of updated) (loader "/srv")).1 ≡ ok (nginx_of updated ∷ [])
unfolding scanning
scanned updated = refl

abbrev pub cfg : ServerConfig
cfg = record {
  node_store = none;
  report_store = none;
  loader = some (loader "/srv");
  debug_mode = false;
}

abbrev pub config : AgentConfiguration ℕ
config = record {
  othela_url = "http://othela/api/v1";
  node_id = "edge-1";
  poll_interval = 5;
  workspace_dir = "/tmp/helvilette";
  labels = ("role", "edge") ∷ [];
}

abbrev pub edge_job : Bool → Job
edge_job updated = manifest_job "" (nginx_of updated) (fleet updated) group

pub group-FirstMatch : FirstMatch config.labels (group ∷ []) group
unfolding is_subset
group-FirstMatch = record { before = []; after = []; split = refl; missed = tt; hit = refl }

abbrev pub first_match :
    (updated : Bool) → IsFirstMatch "" config.labels (nginx_of updated ∷ []) (edge_job updated)
first_match updated = record {
  before = [];
  playbook = nginx_of updated;
  after = [];
  split = refl;
  passed = tt;
  manifest = fleet updated;
  has_manifest = refl;
  group = group;
  first_group = group-FirstMatch;
  built = refl;
}

-- A report is sent as its status.
abbrev pub sent : String → Report
sent status = record {
  node_id = "edge-1";
  job_id = "job-ab01-edge";
  status = status;
  task_logs = "{\"plays\":[]}";
}

abbrev pub wire : Bool → Wire
wire updated = record {
  decoder = record {
    registration = λ body. ok (record { node_id = "edge-1"; labels = ("role", "edge") ∷ [] });
    report = λ body. ok (sent body);
  };
  mux = λ routes method path.
      if method == "GET"
      then ok (sync, ("node_id", "edge-1") ∷ [])
      else if path == "http://othela/api/v1/report"
      then ok (report, [])
      else ok (register_node, []);
  path_of = λ url. url;
  encode = λ body. "job";
  status_line = λ code. "";
  marshal_registration = λ id labels. id;
  marshal_report = λ r. ok r.status;
  compact = compacted;
  decode_job = λ body. ok (edge_job updated);
  disk = disk_of updated;
  env = "";
}

-- What a run of the job on the sample machine computes with.
unfoldable pub runs_edge : Bool → World → World × (String × String)
unfolding execute_playbook prepare find_source run_ansible write_vars ensure_repo open_or_clone_repo
    open_and_fetch_repo sync_worktree checkout_version
runs_edge updated v = run_once machine config (edge_job updated) v

carried :
    (updated : Bool) (v : World)
    → arriving (wire updated) (run_report machine config (edge_job updated) v)
      ≡ sent (run_report machine config (edge_job updated) v).status
unfolding runs_edge
carried true v = refl
carried false v = refl

pub wired :
    (updated : Bool)
    → IsWired
        (wire updated)
        config
        machine.json_valid
        (edge_job updated)
        (IsRunReport machine config (edge_job updated))
unfolding get lookup
wired updated = record {
  register_vars = [];
  register_route = refl;
  sync_vars = ("node_id", "edge-1") ∷ [];
  sync_route = refl;
  sync_id = refl;
  report_vars = [];
  report_route = refl;
  registration = refl;
  report_text = λ r. r.status;
  report_encoded = λ r issued json. refl;
  report_decoded = λ r (v, e) json. ground (arith, carried updated v);
  job_decoded = refl;
}

edge_repo : ◌≢◌ {A = String} "repo.git" ""
edge_repo = ground (arith, eq_iff "repo.git" "")

pub edge-IsWritable :
    (updated : Bool) (v : World) → IsWritable machine config.workspace_dir (edge_job updated) v
edge-IsWritable updated v = (refl, inl edge_repo)
