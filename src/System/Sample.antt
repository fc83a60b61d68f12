-- ===== src/System/Sample.antt =====
-- The sample agent of Agent/Sample and a server with a fallback job: the job's first run fails and its
-- second one succeeds.
use helvilette.Prelude.{
  ℕ, zero, suc, ◌<◌, String, ◌≡◌, ◌≢◌, refl, inl, some, ok, [], ◌∷◌, arith, eq_iff, ◌==◌,
  if◌then◌else◌,
}
use helvilette.Prelude.Dict.{get, lookup}
use helvilette.Types.{Report}
use helvilette.Storage.Memory.{memory_reports, save}
use helvilette.Playbook.Loader.Sample.{disk}
use helvilette.Server.{choose_job, match_playbooks, fallback_job, has_manifests}
use helvilette.Server.Start.{MemoryServer, new_server_with_job}
use helvilette.Server.Trace.Reports.{AcceptsReports}
use helvilette.Server.Routes.{register_node, sync, report}
use helvilette.Git.{
  ensure_repo, open_or_clone_repo, open_and_fetch_repo, sync_worktree, checkout_version,
}
use helvilette.Agent.Sample.{World, world, machine, config, nginx_job}
use helvilette.Agent.Execute.{execute_playbook, prepare, find_source, run_ansible, write_vars}
use helvilette.Agent.Execute.Laws.{IsWritable}
use helvilette.System.{Wire, IsWired, arriving}
use helvilette.System.Steps.{IsRunReport, run_once, run_report, run_status}

-- The output of the sample machine is indented, and ends in a new line.
abbrev pub compacted : String → String
compacted text = if text == "{\n    \"plays\": []\n}\n" then "{\"plays\":[]}" else text

-- A report is sent as its status.
abbrev pub sent : String → Report
sent status = record {
  node_id = "web-1";
  job_id = "job-1";
  status = status;
  task_logs = "{\"plays\":[]}";
}

-- A report of another node.
abbrev pub other_report : Report
other_report = record {
  node_id = "db-1";
  job_id = "job-2";
  status = "Success";
  task_logs = "{\"plays\":[]}";
}

abbrev pub wire : Wire
wire = record {
  decoder = record {
    registration = λ body. ok (
        if body == "db-1"
        then record { node_id = "db-1"; labels = [] }
        else record { node_id = "web-1"; labels = ("role", "web") ∷ [] });
    report = λ body. ok (if body == "db-1" then other_report else sent body);
  };
  mux = λ routes method path.
      if method == "GET"
      then ok (sync, ("node_id", "web-1") ∷ [])
      else if path == "http://othela/api/v1/report"
      then ok (report, [])
      else ok (register_node, []);
  path_of = λ url. url;
  encode = λ body. "job";
  status_line = λ code. "";
  marshal_registration = λ id labels. id;
  marshal_report = λ r. ok r.status;
  compact = compacted;
  decode_job = λ body. ok nginx_job;
  disk = disk;
  env = "";
}

abbrev pub server : MemoryServer
server = new_server_with_job nginx_job

-- What a run of the job on the sample machine computes with.
unfoldable pub runs_sample : World → World × (String × String)
unfolding execute_playbook prepare find_source run_ansible write_vars ensure_repo open_or_clone_repo
    open_and_fetch_repo sync_worktree checkout_version
runs_sample v = run_once machine config nginx_job v

pub carried :
    (v : World)
    → arriving wire (run_report machine config nginx_job v)
      ≡ sent (run_report machine config nginx_job v).status
unfolding runs_sample
carried v = refl

sent_differs : (v : World) → (run_report machine config nginx_job v).status ≢ "db-1"
unfolding runs_sample
sent_differs v = ground (arith, eq_iff "Failed" "db-1", eq_iff "Success" "db-1")

pub wired : IsWired wire config machine.json_valid nginx_job (IsRunReport machine config nginx_job)
unfolding get lookup
wired = record {
  register_vars = [];
  register_route = refl;
  sync_vars = ("node_id", "web-1") ∷ [];
  sync_route = refl;
  sync_id = refl;
  report_vars = [];
  report_route = refl;
  registration = refl;
  report_text = λ r. r.status;
  report_encoded = λ r issued json. refl;
  report_decoded = λ r (v, e) json. ground (
    arith,
    carried v,
    sent_differs v,
    eq_iff (run_report machine config nginx_job v).status "db-1",
  );
  job_decoded = refl;
}

pub nginx-IsWritable : (v : World) → IsWritable machine config.workspace_dir nginx_job v
nginx-IsWritable v = (refl, inl nginx-repo)
  where
    nginx-repo : nginx_job.repo_url ≢ ""
    nginx-repo = ground (arith, eq_iff nginx_job.repo_url "")

pub first-fails : (i : ℕ) → i < 1 → run_status machine config nginx_job i (world 0 0) ≢ "Success"
unfolding runs_sample
first-fails zero _ = λ same.
    let e : ◌≡◌ {A = String} "Failed" "Success" = same in ground (arith, eq_iff "Failed" "Success")
first-fails (suc i) lt = absurd (omega arith)

pub second-succeeds : run_status machine config nginx_job 1 (world 0 0) ≡ "Success"
unfolding runs_sample
second-succeeds = refl

pub chosen : choose_job "" server.current_job server.playbooks config.labels ≡ some nginx_job
unfolding choose_job match_playbooks fallback_job has_manifests
chosen = refl

pub real : nginx_job.job_id ≢ ""
real = ground (arith, eq_iff nginx_job.job_id "")

pub memory-AcceptsReports : AcceptsReports memory_reports
unfolding save
memory-AcceptsReports s r = refl
