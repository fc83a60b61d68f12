-- ===== src/System/Network/Ticks.antt =====
-- One tick of the agent over the network of this part.
use helvilette.Prelude.{
  ◌≤◌, ◌<◌, String, ◌≡◌, ◌≢◌, refl, ◌⊎◌, inl, inr, some, List, [], ◌∷◌, length, All, arith, eq_iff,
  ◌==◌, if◌then◌else◌,
}
use helvilette.Prelude.Subsequence.{IsSubsequence}
use helvilette.Types.{Job, Report}
use helvilette.Storage.{NodeStore, ReportStore, IsNodeStore, IsReportStore}
use helvilette.Server.{Server}
use helvilette.Server.Trace.Reports.{AcceptsReports}
use helvilette.Agent.{AgentConfiguration}
use helvilette.Agent.Execute.{Machine}
use helvilette.Agent.Execute.Laws.{MarshalsJson, IsWritable, execute_playbook-json}
use helvilette.Agent.Client.{send_report}
use helvilette.Agent.Process.{Agent, process_job, tick}
use helvilette.System.{Wire, IsWired, arriving}
use helvilette.System.Beside.{machine_beside, execute_playbook-beside}
use helvilette.System.Steps.{agent, run_once, run_report, run_status, IsRunReport}
use helvilette.System.Network.{Event, delivered, request_lost, Net, IsForeignEvent, lossy}
use helvilette.System.Network.Grown.{Offers, Grown, Grown-trans}
use helvilette.System.Network.Exchanges.{
  poll-Polled, send_report-Sent, poll-delivered, send_report-lost,
}

module _ {V Duration : Type 0} (M : Machine V) (config : AgentConfiguration Duration) (j : Job)
    {N : NodeStore} {R : ReportStore} {stored : Report → Report} (lawful : IsNodeStore N)
    (kept : IsReportStore R stored) (accepts : AcceptsReports R) (wire : Wire)
    (wired : IsWired wire config M.json_valid j (IsRunReport M config j))
    (marshals : MarshalsJson M) (writable : (v : V) → IsWritable M config.workspace_dir j v) where
  -- The agent with its last job, the network and the node.
  abbrev pub State : Type 0
  State = Agent Duration × (Net N R × V)

  abbrev pub at : String → Server N R → List Event → V → State
  at last s events v = (agent M config j last, ((s, events), v))

  abbrev pub step : State → State
  step st = tick (machine_beside M) (lossy wire) st

  abbrev pub Foreign : List Event → Type 0
  Foreign events = All (IsForeignEvent wire config.node_id) events

  abbrev pub Grows : Server N R → Server N R → List Report → Type 0
  Grows s t mine = Grown stored config.node_id (Offers wire config.node_id j) s t mine

  abbrev pub Offered : Server N R → Type 0
  Offered s = Offers wire config.node_id j s

  -- What the agent remembers after a run.
  abbrev pub remembered : String → V → String
  remembered last v = if run_status M config j 0 v == "Success" then j.job_id else last

  -- A tick that runs nothing.
  pub record Idle (last : String) (s : Server N R) (events : List Event) (v : V) : Type 0 where
    pub later : Server N R
    pub rest : List Event
    pub grown : Grows s later []
    pub foreign : Foreign rest
    pub same : step (at last s events v) ≡ at last later rest v

  -- A tick that runs the job.
  pub record Ran (last : String) (s : Server N R) (events : List Event) (v : V) : Type 0 where
    pub later : Server N R
    pub rest : List Event
    pub mine : List Report
    pub few : IsSubsequence mine (arriving wire (run_report M config j v) ∷ [])
    pub grown : Grows s later mine
    pub foreign : Foreign rest
    pub shorter : length rest ≤ length events
    pub same :
        step (at last s events v) ≡ at (remembered last v) later rest (run_once M config j v).0

  process-done :
      (s : Server N R) (events : List Event) (v : V)
      → (process_job
          (machine_beside M)
          (lossy wire)
          (agent M config j j.job_id)
          (some j)
          ((s, events), v)).0
        ≡ at j.job_id s events v
  unfolding process_job
  process-done s events v = ground (arith, eq_iff j.job_id j.job_id)

  pub step-done :
      (s : Server N R) (events : List Event) (v : V)
      → Foreign events
      → Offered s
      → Idle j.job_id s events v
  unfolding tick
  step-done s events v foreign o =
      let p =
        poll-Polled wire config M.json_valid j (IsRunReport M config j) wired lawful kept accepts
          events s v foreign o in
      record {
        later = p.later;
        rest = p.rest;
        grown = p.grown;
        foreign = p.foreign;
        same = elim p.outcome [
          | inl (e, le) ↦ ground (arith, process-done p.later p.rest v)
          | inr (e, failed, lt) ↦ ground arith
        ];
      }

  process-fresh :
      (last : String) (s s' : Server N R) (events rest : List Event) (v : V)
      → j.job_id ≢ last
      → (send_report
          (lossy wire)
          config
          (run_report M config j v)
          ((s, events), (run_once M config j v).0)).0
        ≡ ((s', rest), (run_once M config j v).0)
      → (process_job
          (machine_beside M)
          (lossy wire)
          (agent M config j last)
          (some j)
          ((s, events), v)).0
        ≡ at (remembered last v) s' rest (run_once M config j v).0
  unfolding process_job
  process-fresh last s s' events rest v fresh sent = ground (
    arith,
    eq_iff j.job_id last,
    execute_playbook-beside {S = Net N R} M (s, events) config.workspace_dir j v,
  )

  pub step-fresh :
      (last : String) (s : Server N R) (events : List Event) (v : V)
      → j.job_id ≢ last
      → Foreign events
      → Offered s
      → (Ran last s events v) ⊎ ((idle : Idle last s events v) × (length idle.rest < length events))
  unfolding tick
  step-fresh last s events v fresh foreign o =
      let p =
        poll-Polled wire config M.json_valid j (IsRunReport M config j) wired lawful kept accepts
          events s v foreign o in
      let sent =
        send_report-Sent wire config M.json_valid j (IsRunReport M config j) wired lawful kept
          accepts p.rest p.later (run_once M config j v).0 (run_report M config j v) p.foreign
          (v, refl) (execute_playbook-json M config.workspace_dir j v marshals (writable v)) refl in
      elim p.outcome [
        | inl (e, le) ↦ inl (record {
          later = sent.later;
          rest = sent.rest;
          mine = sent.mine;
          few = sent.few;
          grown =
              Grown-trans stored config.node_id (Offers wire config.node_id j) p.grown sent.grown;
          foreign = sent.foreign;
          shorter = omega (arith, sent.shorter);
          same =
              ground
                (arith, process-fresh last p.later sent.later p.rest sent.rest v fresh sent.after);
        })
        | inr (e, failed, lt) ↦ inr (
          record {
            later = p.later;
            rest = p.rest;
            grown = p.grown;
            foreign = p.foreign;
            same = ground arith;
          },
          lt,
        )
      ]

  -- The poll is answered, the run succeeds, and its report is lost.
  pub step-lost :
      (last : String) (s : Server N R) (events : List Event) (v : V)
      → j.job_id ≢ last
      → Offered s
      → run_status M config j 0 v ≡ "Success"
      → step (at last s (delivered ∷ request_lost ∷ events) v)
        ≡ at j.job_id s events (run_once M config j v).0
  unfolding tick
  step-lost last s events v fresh o fine =
      let r = run_report M config j v in
      let v' = (run_once M config j v).0 in
      let polled =
        poll-delivered wire config M.json_valid j (IsRunReport M config j) wired lawful kept accepts
          (request_lost ∷ events) s v o in
      let sent =
        send_report-lost wire config M.json_valid j (IsRunReport M config j) wired lawful kept
          accepts events s v' r (v, refl)
          (execute_playbook-json M config.workspace_dir j v marshals (writable v)) in
      ground (
        arith,
        polled,
        process-fresh last s s (request_lost ∷ events) events v fresh sent,
        eq_iff (run_status M config j 0 v) "Success",
      )
