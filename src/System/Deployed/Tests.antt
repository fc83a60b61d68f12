-- ===== src/System/Deployed/Tests.antt =====
-- Othela on the sample disk, whose one playbook has a group for the labels of an agent; the job's first
-- run on the agent's node fails.
use helvilette.Prelude.{
  ℕ, zero, suc, ◌<◌, String, false, ◌≡◌, ◌≢◌, refl, none, List, [], ◌∷◌, arith, eq_iff, map,
}
use helvilette.Prelude.Subsequence.{IsSubsequence}
use helvilette.Storage.Memory.{
  memory_nodes, memory_reports, memory_nodes-IsNodeStore, memory_reports-IsReportStore, list,
}
use helvilette.Storage.Memory
use helvilette.Playbook.Loader.Sample.{loader, entries}
use helvilette.Server.{Server}
use helvilette.Server.Start.{new_server_with_config}
use helvilette.Server.Start.Dispatch.{IsDeclared}
use helvilette.Agent.Sample.{World, world, machine}
use helvilette.Agent.Process.{Progress, polling, Agent}
use helvilette.System.Sample.{memory-AcceptsReports}
use helvilette.System.{arriving}
use helvilette.System.Steps.{agent, run_reports, run_status, after_runs}
use helvilette.System.Network.{Event, delivered, request_lost, response_lost}
use helvilette.System.Network.Whole.{Delivered, whole}
use helvilette.System.Deployed.{start, deployed-Delivered}
use helvilette.System.Deployed.Sample.{
  disk_of, nginx_of, scanned, cfg, config, edge_job, first_match, wire, runs_edge, wired,
  edge-IsWritable,
}

first-fails : (i : ℕ) → i < 1 → run_status machine config (edge_job false) i (world 0 0) ≢ "Success"
unfolding runs_edge
first-fails zero _ = λ same.
    let e : ◌≡◌ {A = String} "Failed" "Success" = same in ground (arith, eq_iff "Failed" "Success")
first-fails (suc i) lt = absurd (omega arith)

second-succeeds : run_status machine config (edge_job false) 1 (world 0 0) ≡ "Success"
unfolding runs_edge
second-succeeds = refl

welcomes : (t : memory_nodes.State) → (memory_nodes.register t "edge-1" config.labels).1 ≡ none
unfolding Memory.register
welcomes t = refl

abbrev events : List Event
events = request_lost ∷ delivered ∷ response_lost ∷ []

abbrev ended : (Agent ℕ × ((Server memory_nodes memory_reports × List Event) × World)) × Progress
ended =
    whole machine config (edge_job false) memory_nodes-IsNodeStore memory_reports-IsReportStore
      memory-AcceptsReports (wire false) (wired false) (λ m. refl) (edge-IsWritable false) 4 5
      (start (disk_of false) "" "0" cfg) events (world 0 0)

deployed-Delivered_example :
    IsDeclared config.labels (nginx_of false ∷ []) (edge_job false)
    × (ended.1 ≡ polling)
    × (ended.0.0 ≡ agent machine config (edge_job false) (edge_job false).job_id)
    × (ended.0.1.1 ≡ after_runs machine config (edge_job false) 2 (world 0 0))
    × Delivered machine config
        (edge_job false)
        memory_nodes-IsNodeStore
        memory_reports-IsReportStore
        memory-AcceptsReports
        (wire false)
        (wired false)
        (λ m. refl)
        (edge-IsWritable false)
        []
        (λ mine.
          IsSubsequence mine (
            map
              (arriving (wire false))
              (run_reports machine config (edge_job false) 2 (world 0 0))))
        ended.0.1.0.0
unfolding list new_server_with_config
deployed-Delivered_example =
    deployed-Delivered (disk_of false) "" "0" cfg machine config (edge_job false)
      memory_nodes-IsNodeStore memory_reports-IsReportStore memory-AcceptsReports (wire false)
      (wired false) (λ m. refl) (edge-IsWritable false) welcomes (loader "/srv") entries
      (nginx_of false ∷ []) 4 5 1 events (world 0 0) [] refl refl (scanned false)
      (first_match false) (tt, (tt, (tt, tt))) first-fails second-succeeds (omega arith)
      (omega arith) refl
