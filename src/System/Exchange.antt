-- ===== src/System/Exchange.antt =====
-- What the agent's three calls do to the server and bring back.
use helvilette.Prelude.{String, Bool, true, false, ◌≡◌, some, none, ok, List, ◌∷◌, arith}
use helvilette.Types.{Job, Report}
use helvilette.Storage.{NodeStore, ReportStore}
use helvilette.Server.{Server, handle_register_node, handle_report, handle_sync, json_response, job}
use helvilette.Server.Routes.{serve, handle}
use helvilette.Agent.{AgentConfiguration}
use helvilette.Agent.Client.{poll, send_report, register_node}
use helvilette.System.{Wire, online, arriving, IsWired}

module _ {N : NodeStore} {R : ReportStore} where
  -- The server after an agent's registration.
  abbrev pub registered :
      {Duration : Type 0} → AgentConfiguration Duration → Server N R → Server N R
  registered config s = record s { nodes = (N.register s.nodes config.node_id config.labels).0 }

  -- The server after a report.
  abbrev pub reported : Report → Server N R → Server N R
  reported r s = record s { reports = (R.save s.reports r).0 }

module _ {N : NodeStore} {R : ReportStore} {V Duration : Type 0} (wire : Wire)
    (config : AgentConfiguration Duration) (valid : String → Bool) (j : Job)
    (Issued : Report → Type 0) (wired : IsWired wire config valid j Issued) where
  pub register_node-online :
      (s : Server N R) (v : V) (during : Bool) (rounds : List (Bool × Bool))
      → register_node (online wire) config ((false, during) ∷ rounds) (s, v)
        ≡ ((registered config s, v), some true)
  unfolding register_node serve handle handle_register_node
  register_node-online s v during rounds = ground (arith, wired.register_route, wired.registration)

  pub poll-online :
      (s : Server N R) (v : V)
      → handle_sync wire.env s config.node_id ≡ json_response 200 (job j)
      → poll (online wire) config (s, v) ≡ ((s, v), ok (some j))
  unfolding poll serve handle
  poll-online s v answered = ground (arith, wired.sync_route, wired.sync_id, wired.job_decoded)

  pub send_report-online :
      (s : Server N R) (v : V) (r : Report)
      → Issued r
      → valid r.task_logs ≡ true
      → send_report (online wire) config r (s, v) ≡ ((reported (arriving wire r) s, v), none)
  unfolding send_report serve handle handle_report
  send_report-online s v r issued json = ground (
    arith,
    wired.report_route,
    wired.report_encoded r issued json,
    wired.report_decoded r issued json,
  )
