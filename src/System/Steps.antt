-- ===== src/System/Steps.antt =====
-- The agent's ticks while the control plane answers its polls with one job.
use native.Mathlib.Nat.{zero-add, suc-add}
use mathlib.Core.List.{append_assoc}
use helvilette.Prelude.{
  ℕ, zero, suc, ◌+◌, ◌<◌, String, ◌≡◌, ◌≢◌, refl, ap, ◌∙◌, some, ok, List, [], ◌∷◌, ◌++◌, map,
  arith, eq_iff, ◌==◌, if◌then◌else◌,
}
use helvilette.Types.{Job, Report}
use helvilette.Storage.{NodeStore, ReportStore, IsReportStore}
use helvilette.Server.{Server, handle_sync, json_response, job}
use helvilette.Server.Trace.Reports.{AcceptsReports}
use helvilette.Agent.{AgentConfiguration}
use helvilette.Agent.Execute.{Machine, execute_playbook}
use helvilette.Agent.Execute.Laws.{MarshalsJson, IsWritable, execute_playbook-json}
use helvilette.Agent.Process.{Agent, process_job, tick, ticks}
use helvilette.System.{Wire, online, arriving, IsWired}
use helvilette.System.Beside.{machine_beside, execute_playbook-beside}
use helvilette.System.Exchange.{reported, poll-online, send_report-online}

module _ {V Duration : Type 0} (M : Machine V) (config : AgentConfiguration Duration)
    (j : Job) where
  abbrev pub agent : String → Agent Duration
  agent last = record { config = config; last_job_id = last }

  -- One run of the job on the node.
  abbrev pub run_once : V → V × (String × String)
  run_once v = execute_playbook M config.workspace_dir j v

  abbrev pub run_report : V → Report
  run_report v = record {
    node_id = config.node_id;
    job_id = j.job_id;
    status = (run_once v).1.0;
    task_logs = (run_once v).1.1;
  }

  -- A report of a run of the job.
  abbrev pub IsRunReport : Report → Type 0
  IsRunReport r = (v : V) × (r ≡ run_report v)

  -- The node after some runs, and their reports.
  abbrev pub after_runs : ℕ → V → V
  after_runs zero v = v
  after_runs (suc n) v = after_runs n (run_once v).0

  abbrev pub run_reports : ℕ → V → List Report
  run_reports zero v = []
  run_reports (suc n) v = run_report v ∷ run_reports n (run_once v).0

  -- The status of the run after the first `n`.
  abbrev pub run_status : ℕ → V → String
  run_status n v = (run_once (after_runs n v)).1.0

  module _ {N : NodeStore} {R : ReportStore} {stored : Report → Report}
      (reports_kept : IsReportStore R stored) (accepts : AcceptsReports R) (wire : Wire)
      (wired : IsWired wire config M.json_valid j IsRunReport) (marshals : MarshalsJson M)
      (writable : (v : V) → IsWritable M config.workspace_dir j v) where
    abbrev pub Answered : Server N R → Type 0
    Answered s = handle_sync wire.env s config.node_id ≡ json_response 200 (job j)

    -- Saving a report does not change the answer to a poll.
    reported-Answered : (r : Report) (s : Server N R) → Answered s → Answered (reported r s)
    unfolding handle_sync
    reported-Answered r s h = h

    abbrev steps : ℕ → Agent Duration × (Server N R × V) → Agent Duration × (Server N R × V)
    steps n st = ticks (machine_beside M) (online wire) n st

    abbrev step : Agent Duration × (Server N R × V) → Agent Duration × (Server N R × V)
    step st = tick (machine_beside M) (online wire) st

    process-done :
        (s : Server N R) (v : V)
        → (process_job (machine_beside M) (online wire) (agent j.job_id) (some j) (s, v)).0
          ≡ (agent j.job_id, (s, v))
    unfolding process_job
    process-done s v = ground (arith, eq_iff j.job_id j.job_id)

    step-done :
        (s : Server N R) (v : V)
        → Answered s
        → step (agent j.job_id, (s, v)) ≡ (agent j.job_id, (s, v))
    unfolding tick
    step-done s v h =
        ground
          (arith, poll-online wire config M.json_valid j IsRunReport wired s v h, process-done s v)

    pub steps-done :
        (n : ℕ) (s : Server N R) (v : V)
        → Answered s
        → steps n (agent j.job_id, (s, v)) ≡ (agent j.job_id, (s, v))
    unfolding ticks
    steps-done zero s v h = refl
    steps-done (suc n) s v h = rw (step-done s v h) (steps-done n s v h)

    process-fresh :
        (last : String) (s : Server N R) (v : V)
        → j.job_id ≢ last
        → (process_job (machine_beside M) (online wire) (agent last) (some j) (s, v)).0 ≡ (
          agent (if (run_once v).1.0 == "Success" then j.job_id else last),
          (reported (arriving wire (run_report v)) s, (run_once v).0),
        )
    unfolding process_job
    process-fresh last s v fresh = ground (
      arith,
      eq_iff j.job_id last,
      execute_playbook-beside M s config.workspace_dir j v,
      execute_playbook-json M config.workspace_dir j v marshals (writable v),
      send_report-online wire config M.json_valid j IsRunReport wired s (run_once v).0
          (run_report v) (v, refl),
    )

    step-fresh :
        (last : String) (s : Server N R) (v : V)
        → j.job_id ≢ last
        → Answered s
        → step (agent last, (s, v)) ≡ (
          agent (if (run_once v).1.0 == "Success" then j.job_id else last),
          (reported (arriving wire (run_report v)) s, (run_once v).0),
        )
    unfolding tick
    step-fresh last s v fresh h = ground (
      arith,
      poll-online wire config M.json_valid j IsRunReport wired s v h,
      process-fresh last s v fresh,
    )

    step-success :
        (last : String) (s : Server N R) (v : V)
        → j.job_id ≢ last
        → Answered s
        → run_status 0 v ≡ "Success"
        → step (agent last, (s, v))
          ≡ (agent j.job_id, (reported (arriving wire (run_report v)) s, (run_once v).0))
    step-success last s v fresh h fine =
        ground (arith, step-fresh last s v fresh h, eq_iff (run_status 0 v) "Success")

    step-failure :
        (last : String) (s : Server N R) (v : V)
        → j.job_id ≢ last
        → Answered s
        → run_status 0 v ≢ "Success"
        → step (agent last, (s, v))
          ≡ (agent last, (reported (arriving wire (run_report v)) s, (run_once v).0))
    step-failure last s v fresh h bad =
        ground (arith, step-fresh last s v fresh h, eq_iff (run_status 0 v) "Success")

    reported-listed :
        (r : Report) (s : Server N R) (before : List Report)
        → R.list s.reports ≡ ok before
        → R.list (reported r s).reports ≡ ok (before ++ stored r ∷ [])
    reported-listed r s before h = reports_kept.listed s.reports r before (accepts s.reports r) h

    -- The agent and the server after enough ticks: the job has succeeded, and the node and the list of
    -- reports are as after `n` runs.
    abbrev pub Settled : ℕ → List Report → V → Agent Duration × (Server N R × V) → Type 0
    Settled n before v (a, (s, v')) =
        (a ≡ agent j.job_id)
        × (v' ≡ after_runs n v)
        × (R.list s.reports ≡ ok (before ++ map stored (map (arriving wire) (run_reports n v))))

    pub steps-Settled :
        (k m : ℕ) (last : String) (s : Server N R) (v : V) (before : List Report)
        → j.job_id ≢ last
        → Answered s
        → ((i : ℕ) → i < k → run_status i v ≢ "Success")
        → run_status k v ≡ "Success"
        → R.list s.reports ≡ ok before
        → Settled (suc k) before v (steps (k + suc m) (agent last, (s, v)))
    unfolding ticks
    steps-Settled zero m last s v before fresh h bad fine listed =
        rw (zero-add, ticks, step-success last s v fresh h fine)
          (rw
            (steps-done m (reported (arriving wire (run_report v)) s) (run_once v).0
              (reported-Answered (arriving wire (run_report v)) s h))
            (refl, refl, reported-listed (arriving wire (run_report v)) s before listed))
    steps-Settled (suc k) m last s v before fresh h bad fine listed =
        let s' = reported (arriving wire (run_report v)) s in
        let v' = (run_once v).0 in
        let more = before ++ stored (arriving wire (run_report v)) ∷ [] in
        let (a_last, world, lists) =
          steps-Settled k m last s' v' more fresh
            (reported-Answered (arriving wire (run_report v)) s h)
            (λ i lt. bad (suc i) (omega arith)) fine
            (reported-listed (arriving wire (run_report v)) s before listed) in
        rw (suc-add, ticks, step-failure last s v fresh h (bad 0 (omega arith)))
          (
            a_last,
            world,
            lists
                ∙ ap ok (
                    append_assoc before (stored (arriving wire (run_report v)) ∷ [])
                      (map stored (map (arriving wire) (run_reports (suc k) v')))),
          )
