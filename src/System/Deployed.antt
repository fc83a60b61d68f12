-- ===== src/System/Deployed.antt =====
-- From a directory of playbooks and an agent's labels to the runs of a job: cmd/othela/server.go
-- started on the directory, and an agent of cmd/agent/main.go over the network of System/Network.
pub mod Sample
mod Tests
use mathlib.Core.Path.{subst}
use helvilette.Prelude.{
  ℕ, suc, ◌+◌, ◌<◌, String, true, false, Bool, ◌≡◌, ◌≢◌, refl, sym, ap, ◌∙◌, Option, some, none,
  inl, ok, List, length, All, map, arith,
}
use helvilette.Prelude.Dict.{Dict}
use helvilette.Prelude.Subsequence.{IsSubsequence}
use helvilette.Prelude.Text.{has_prefix, has_prefix-append_self}
use helvilette.FilePath.{◌<>◌}
use helvilette.Types.{Job, Report}
use helvilette.Storage.{NodeStore, ReportStore, IsNodeStore, IsReportStore}
use helvilette.Playbook.{Playbook}
use helvilette.Playbook.Loader.{Disk, Loader, Entry, scan}
use helvilette.Playbook.Loader.Laws.{scan-IsDispatchable}
use helvilette.Server.{Server, choose_job}
use helvilette.Server.Sync.{IsFirstMatch}
use helvilette.Server.Sync.Answers.{choose_job_iff}
use helvilette.Server.Start.{
  ServerConfig, node_backend, report_backend, new_server_with_config, load_playbooks,
}
use helvilette.Server.Start.Dispatch.{IsDeclared, IsFirstMatch-IsDeclared, playbooks-loaded}
use helvilette.Server.Trace.Reports.{AcceptsReports}
use helvilette.Agent.{AgentConfiguration}
use helvilette.Agent.Execute.{Machine}
use helvilette.Agent.Execute.Laws.{MarshalsJson, IsWritable}
use helvilette.Agent.Process.{Agent, Progress, polling}
use helvilette.System.{Wire, IsWired, arriving}
use helvilette.System.Steps.{agent, run_reports, run_status, after_runs, IsRunReport}
use helvilette.System.Network.{Net, Event, IsForeignEvent}
use helvilette.System.Network.Whole.{Delivered, whole, run-Delivered}

pub started-playbooks :
    (disk : Disk) (env now : String) (cfg : ServerConfig) (l : Loader) (pbs : List Playbook)
    → cfg.loader ≡ some l
    → (scan disk l).1 ≡ ok pbs
    → (new_server_with_config disk env now cfg).playbooks ≡ pbs
unfolding new_server_with_config
started-playbooks disk env now cfg l pbs has found =
    ground (arith, playbooks-loaded disk env now l pbs found)

prefix-nonempty : (s : String) → "job-" <> s ≢ ""
unfolding has_prefix
prefix-nonempty s same =
    let starts = ap (λ t. has_prefix t "job-") (sym same) ∙ has_prefix-append_self "job-" s in
    absurd (ground arith)

pub first_match_chosen :
    (env : String) (current_job : Job) (labels : Dict String) (all pbs : List Playbook) (j : Job)
    → all ≡ pbs
    → IsFirstMatch env labels pbs j
    → choose_job env current_job all labels ≡ some j
first_match_chosen env current_job labels all pbs j same first =
    ap (λ ps. choose_job env current_job ps labels) same
    ∙ (choose_job_iff env current_job pbs labels j).1 (inl first)

module _ (disk : Disk) (env now : String) (cfg : ServerConfig) where
  abbrev Nodes : NodeStore
  Nodes = (node_backend cfg.node_store).store

  abbrev Reports : ReportStore
  Reports = (report_backend cfg.report_store).store

  abbrev pub start : Server Nodes Reports
  start = new_server_with_config disk env now cfg

  module _ {V Duration : Type 0} (M : Machine V) (config : AgentConfiguration Duration) (j : Job)
      {stored : Report → Report} (lawful : IsNodeStore Nodes) (kept : IsReportStore Reports stored)
      (accepts : AcceptsReports Reports) (wire : Wire)
      (wired : IsWired wire config M.json_valid j (IsRunReport M config j))
      (marshals : MarshalsJson M) (writable : (v : V) → IsWritable M config.workspace_dir j v) where
    abbrev deployed : ℕ → ℕ → List Event → V → (Agent Duration × (Net Nodes Reports × V)) × Progress
    deployed m n events v =
        whole M config j lawful kept accepts wire wired marshals writable m n start events v

    -- Othela starts on a directory that it can scan, and `j` is the job of the first playbook there
    -- with a group for the labels of an agent. Then `j` has the repository, branch and playbook of
    -- a valid manifest; and a new agent with these labels, over a network that loses requests and
    -- responses while other nodes send some, comes to poll and runs `j` until a run succeeds, and
    -- no more. Of its reports, Othela lists some, in their order and none twice. There are more
    -- uncancelled rounds of registration than events, and more ticks than events and failing runs.
    -- Task logs arrive compact, as encoding/json makes them. The stores are lawful, and accept the
    -- node's registrations and every report; the codecs agree on the node's messages; the JSON
    -- encoder of maps gives JSON; and the workspace can be written, whatever the state of the node.
    pub deployed-Delivered :
        (welcomes : (t : Nodes.State) → (Nodes.register t config.node_id config.labels).1 ≡ none)
        (l : Loader) (entries : List Entry) (pbs : List Playbook) (m n k : ℕ) (events : List Event)
        (v : V) (before : List Report)
        → cfg.loader ≡ some l
        → disk.read_dir l.base_dir ≡ ok entries
        → (scan disk l).1 ≡ ok pbs
        → IsFirstMatch wire.env config.labels pbs j
        → All (IsForeignEvent wire config.node_id) events
        → ((i : ℕ) → i < k → run_status M config j i v ≢ "Success")
        → run_status M config j k v ≡ "Success"
        → length events < m
        → length events + k < n
        → Reports.list start.reports ≡ ok before
        → IsDeclared config.labels pbs j
          × ((deployed m n events v).1 ≡ polling)
          × ((deployed m n events v).0.0 ≡ agent M config j j.job_id)
          × ((deployed m n events v).0.1.1 ≡ after_runs M config j (suc k) v)
          × Delivered M config j lawful kept accepts wire wired marshals writable before
              (λ mine. IsSubsequence mine (map (arriving wire) (run_reports M config j (suc k) v)))
              (deployed m n events v).0.1.0.0
    deployed-Delivered welcomes l entries pbs m n k events v before has readable found first foreign
          bad fine rounds enough listed =
        let declared =
          IsFirstMatch-IsDeclared wire.env config.labels pbs j
            (λ pb mf. scan-IsDispatchable disk l entries pbs pb mf readable found) first in
        let chosen =
          first_match_chosen wire.env start.current_job config.labels start.playbooks pbs j
            (started-playbooks disk env now cfg l pbs has found) first in
        let real : j.job_id ≢ "" = λ empty.
          prefix-nonempty (declared.playbook.id <> "-" <> declared.group.name)
            (sym declared.job_id ∙ empty) in
        let (joined, last, node, lists) =
          run-Delivered M config j lawful kept accepts wire wired marshals writable welcomes m n k
            start events v before real foreign chosen bad fine rounds enough listed in
        (declared, joined, last, node, lists)
