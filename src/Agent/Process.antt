-- ===== src/Agent/Process.antt =====
-- `ProcessJob` and the loop of `Run` of cmd/agent/main.go. The systemd events, which the agent only
-- logs, are left out of the loop.
mod Laws
mod Tests
use helvilette.Prelude.{
  ℕ, zero, suc, String, Bool, true, false, ◌≡◌, refl, Option, none, some, Result, ok, err, List, [],
  ◌∷◌, ◌==◌, if◌then◌else◌,
}
use helvilette.Types.{Job, Report}
use helvilette.Agent.{AgentConfiguration}
use helvilette.Agent.Execute.{Machine, execute_playbook}
use helvilette.Agent.Client.{Client, SendError, poll, register_node, send_report}

-- The HTTP client is the `Client` that the operations take.
pub record Agent (Duration : Type 0) : Type 0 where
  pub config : AgentConfiguration Duration
  pub last_job_id : String

abbrev pub new_agent : {Duration : Type 0} → AgentConfiguration Duration → Agent Duration
new_agent config = record { config = config; last_job_id = "" }

-- What the `select` of the loop receives: a tick, or that the context is done.
pub data Select : Type 0 where
  ticked cancelled : Select

abbrev pub ticking : ℕ → List Select
ticking zero = []
ticking (suc n) = ticked ∷ ticking n

-- How far `Run` is: it still registers, or polls, or it has returned the error of the context.
pub data Progress : Type 0 where
  registering polling ended : Progress

module _ {W Duration : Type 0} (M : Machine W) (C : Client W) where
  abbrev pub report_of : Agent Duration → Job → String × String → Report
  report_of a job (status, output) = record {
    node_id = a.config.node_id;
    job_id = job.job_id;
    status = status;
    task_logs = output;
  }

  abbrev pub executed : Agent Duration → Job → W → W × (String × String)
  executed a job w = execute_playbook M a.config.workspace_dir job w

  -- `if status == "Success" { a.lastJobID = job.JobID }`
  abbrev pub recorded : Agent Duration → Job → String → Agent Duration
  recorded a job status = if status == "Success" then record a { last_job_id = job.job_id } else a

  run_job : Agent Duration → Job → W → (Agent Duration × W) × Option SendError
  run_job a job w =
      let (w', result) = executed a job w in
      let (w'', failure) = send_report C a.config (report_of a job result) w' in
      ((recorded a job result.0, w''), failure)

  unfoldable pub process_job :
      Agent Duration → Option Job → W → (Agent Duration × W) × Option SendError
  unfolding run_job
  process_job a none w = ((a, w), none)
  process_job a (some job) w =
      if job.job_id == a.last_job_id then ((a, w), none) else run_job a job w

  -- One tick of the loop of `Run`: an error of `Poll` or of `ProcessJob` is logged only.
  unfoldable pub tick : Agent Duration × W → Agent Duration × W
  tick (a, w) =
      let (w', result) = poll C a.config w in
      elim result [ err e ↦ (a, w') | ok job ↦ (process_job a job w').0 ]

  unfoldable pub ticks : ℕ → Agent Duration × W → Agent Duration × W
  ticks zero st = st
  ticks (suc n) st = ticks n (tick st)

  -- The loop of `Run`, over what its `select` receives.
  unfoldable pub loop : List Select → Agent Duration × W → (Agent Duration × W) × Progress
  loop [] st = (st, polling)
  loop (ticked ∷ selects) st = loop selects (tick st)
  loop (cancelled ∷ selects) st = (st, ended)

  pub loop-ticking : (n : ℕ) (st : Agent Duration × W) → loop (ticking n) st ≡ (ticks n st, polling)
  unfolding loop ticks
  loop-ticking zero st = refl
  loop-ticking (suc n) st = loop-ticking n (tick st)

  abbrev enter_loop :
      Agent Duration → List Select → W × Option Bool → (Agent Duration × W) × Progress
  enter_loop a selects (w, none) = ((a, w), registering)
  enter_loop a selects (w, some true) = loop selects (a, w)
  enter_loop a selects (w, some false) = ((a, w), ended)

  -- `Run`: the registration, and then the loop.
  unfoldable pub run :
      List (Bool × Bool) → List Select → Agent Duration × W → (Agent Duration × W) × Progress
  run rounds selects (a, w) = enter_loop a selects (register_node C a.config rounds w)
