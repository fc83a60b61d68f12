-- ===== src/System/Network/Tests.antt =====
-- The sample agent over a network that loses a poll's response and a report, while another node is
-- heard.
use helvilette.Prelude.{ℕ, suc, none, String, ◌≡◌, ◌≢◌, refl, List, [], ◌∷◌, arith, eq_iff, map}
use helvilette.Prelude.Subsequence.{IsSubsequence}
use helvilette.Types.{Report}
use helvilette.Storage.Memory.{
  memory_nodes, memory_reports, memory_nodes-IsNodeStore, memory_reports-IsReportStore, list, save,
}
use helvilette.Storage.Memory
use helvilette.Playbook.Loader.Sample.{disk}
use helvilette.Server.Routes.{Request}
use helvilette.Prelude.Dict.{lookup, insert}
use helvilette.Server.{
  Server, choose_job, match_playbooks, fallback_job, has_manifests, handle_sync, json_response, job,
}
use helvilette.Agent.Sample.{World, world, machine, config, nginx_job}
use helvilette.Agent.Process.{Progress, polling, Agent, ticks}
use helvilette.System.{arriving}
use helvilette.System.Beside.{machine_beside}
use helvilette.System.Exchange.{registered}
use helvilette.System.Steps.{agent, run_reports, after_runs, run_status}
use helvilette.System.Sample.{
  runs_sample, wire, server, wired, nginx-IsWritable, first-fails, second-succeeds, real,
  memory-AcceptsReports, chosen,
}
use helvilette.System.Network.{
  Event, other, delivered, request_lost, response_lost, IsForeign, lossy,
}
use helvilette.System.Network.Delivery.{Lists, lost_report}
use helvilette.System.Network.Whole.{whole, run-Delivered}

-- The database's node registers.
abbrev db_request : Request
db_request = record {
  method = "POST";
  path = "http://othela/api/v1/nodes/register";
  body = "db-1";
  disk = disk;
  env = "";
}

abbrev known_server : Server memory_nodes memory_reports
known_server = registered config server

abbrev events : List Event
events = response_lost ∷ other db_request ∷ delivered ∷ request_lost ∷ []

db-ne-web : ◌≢◌ {A = String} "db-1" "web-1"
db-ne-web = ground (arith, eq_iff "db-1" "web-1")

db-IsForeign : IsForeign wire "web-1" db_request
db-IsForeign = record {
  registration = λ req read. ground (arith, db-ne-web);
  report = λ r read. ground (arith, db-ne-web);
}

offered : handle_sync "" known_server "web-1" ≡ json_response 200 (job nginx_job)
unfolding handle_sync choose_job match_playbooks fallback_job has_manifests Memory.register
    Memory.get_labels Memory.is_registered lookup insert
offered = refl

abbrev Arrived : List Report → (List Report → Type 0) → Server memory_nodes memory_reports → Type 0
Arrived before Mine s =
    Lists machine config nginx_job memory_nodes-IsNodeStore memory_reports-IsReportStore
      memory-AcceptsReports wire wired (λ m. refl) nginx-IsWritable before Mine s

welcomes : (t : memory_nodes.State) → (memory_nodes.register t "web-1" config.labels).1 ≡ none
unfolding Memory.register
welcomes t = refl

abbrev ended : (Agent ℕ × ((Server memory_nodes memory_reports × List Event) × World)) × Progress
ended =
    whole machine config nginx_job memory_nodes-IsNodeStore memory_reports-IsReportStore
      memory-AcceptsReports wire wired (λ m. refl) nginx-IsWritable 5 6 server events (world 0 0)

run-Delivered_example :
    (ended.1 ≡ polling)
    × (ended.0.0 ≡ agent machine config nginx_job nginx_job.job_id)
    × (ended.0.1.1 ≡ after_runs machine config nginx_job 2 (world 0 0))
    × Arrived []
        (λ mine.
          IsSubsequence mine
            (map (arriving wire) (run_reports machine config nginx_job 2 (world 0 0))))
        ended.0.1.0.0
unfolding list
run-Delivered_example =
    run-Delivered machine config nginx_job memory_nodes-IsNodeStore memory_reports-IsReportStore
      memory-AcceptsReports wire wired (λ m. refl) nginx-IsWritable welcomes 5 6 1 server events
      (world 0 0) [] real (tt, (db-IsForeign, (tt, (tt, tt)))) chosen first-fails second-succeeds
      (omega arith) (omega arith) refl

-- From the second run on, whose report is lost.
abbrev late_step : ℕ → Agent ℕ × ((Server memory_nodes memory_reports × List Event) × World)
late_step n = ticks (machine_beside machine) (lossy wire) n (
  agent machine config nginx_job "",
  ((known_server, delivered ∷ request_lost ∷ other db_request ∷ []), world 1 0),
)

later-succeeds : run_status machine config nginx_job 0 (world 1 0) ≡ "Success"
unfolding runs_sample
later-succeeds = refl

lost_report_example :
    ((late_step (suc 3)).0 ≡ agent machine config nginx_job nginx_job.job_id)
    × Arrived [] (λ mine. mine ≡ []) (late_step (suc 3)).1.0.0
unfolding Memory.register list
lost_report_example =
    lost_report machine config nginx_job memory_nodes-IsNodeStore memory_reports-IsReportStore
      memory-AcceptsReports wire wired (λ m. refl) nginx-IsWritable 3 "" known_server
      (other db_request ∷ []) (world 1 0) [] real (db-IsForeign, tt) offered later-succeeds refl
