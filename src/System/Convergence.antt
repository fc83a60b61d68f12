-- ===== src/System/Convergence.antt =====
-- Whole runs of cmd/agent/main.go, from the registration on, against cmd/othela/server.go.
use helvilette.Prelude.{
  ℕ, suc, ◌+◌, ◌<◌, Bool, false, ◌≡◌, ◌≢◌, refl, some, none, ok, List, ◌∷◌, arith,
}
use helvilette.Types.{Job, Report}
use helvilette.Storage.{NodeStore, ReportStore, IsNodeStore, IsReportStore}
use helvilette.Server.{Server, NodeRegistration, handle_register_node, choose_job}
use helvilette.Server.Stores.{register-sync}
use helvilette.Server.Trace.Reports.{AcceptsReports}
use helvilette.Agent.{AgentConfiguration}
use helvilette.Agent.Execute.{Machine}
use helvilette.Agent.Execute.Laws.{MarshalsJson, IsWritable}
use helvilette.Agent.Process.{polling, ticking, new_agent, loop-ticking, run}
use helvilette.System.{Wire, online, IsWired}
use helvilette.System.Beside.{machine_beside}
use helvilette.System.Exchange.{registered, register_node-online}
use helvilette.System.Steps.{IsRunReport, Answered, Settled, run_status, steps-Settled}

module _ {V Duration : Type 0} (M : Machine V) (config : AgentConfiguration Duration) (j : Job)
    {N : NodeStore} {R : ReportStore} {stored : Report → Report}
    (reports_kept : IsReportStore R stored) (accepts : AcceptsReports R) (wire : Wire)
    (wired : IsWired wire config M.json_valid j (IsRunReport M config j))
    (marshals : MarshalsJson M) (writable : (v : V) → IsWritable M config.workspace_dir j v) where
  pub registered-Answered :
      (lawful : IsNodeStore N) (s : Server N R)
      → (N.register s.nodes config.node_id config.labels).1 ≡ none
      → choose_job wire.env s.current_job s.playbooks config.labels ≡ some j
      → Answered M config j reports_kept accepts wire wired marshals writable (registered config s)
  unfolding handle_register_node
  registered-Answered lawful s accepted chosen =
      let text = wire.marshal_registration config.node_id config.labels in
      let node : NodeRegistration = record { node_id = config.node_id; labels = config.labels } in
      let answer =
        register-sync lawful wire.env wire.decoder s text node wired.registration accepted in
      ground (arith, wired.registration, answer)

  -- A new agent registers, uncancelled, with a store that accepts it, and Othela has a job for its
  -- labels whose first `k` runs on the node fail and whose next one succeeds. After more than `k`
  -- ticks, and no cancellation, the agent still polls, the job has been run just `k + 1` times, the
  -- agent has it as the last job that succeeded, and Othela lists just these runs' reports behind
  -- those it had before. Every request is answered. Task logs arrive compact, as encoding/json
  -- makes them. The stores are lawful, and accept every report; the codecs agree on the node's
  -- messages; the JSON encoder of maps gives JSON; and the workspace can be written, whatever the
  -- state of the node.
  pub run-Settled :
      (lawful : IsNodeStore N) (k m : ℕ) (during : Bool) (rounds : List (Bool × Bool))
      (s : Server N R) (v : V) (before : List Report)
      → (N.register s.nodes config.node_id config.labels).1 ≡ none
      → choose_job wire.env s.current_job s.playbooks config.labels ≡ some j
      → j.job_id ≢ ""
      → ((i : ℕ) → i < k → run_status M config j i v ≢ "Success")
      → run_status M config j k v ≡ "Success"
      → R.list s.reports ≡ ok before
      → (run
            (machine_beside M)
            (online wire)
            ((false, during) ∷ rounds)
            (ticking (k + suc m))
            (new_agent config, (s, v))).1
          ≡ polling
        × Settled M config j reports_kept accepts wire wired marshals writable
            (suc k)
            before
            v
            (run
              (machine_beside M)
              (online wire)
              ((false, during) ∷ rounds)
              (ticking (k + suc m))
              (new_agent config, (s, v))).0
  unfolding run
  run-Settled lawful k m during rounds s v before accepted chosen real bad fine listed =
      rw
        (
          register_node-online wire config M.json_valid j (IsRunReport M config j) wired s v during
              rounds,
          loop-ticking,
        )
        (
          refl,
          steps-Settled M config j reports_kept accepts wire wired marshals writable k m ""
              (registered config s) v before real (registered-Answered lawful s accepted chosen) bad
              fine listed,
        )
