-- ===== src/System/Tests.antt =====
-- A whole run of the sample agent against the sample server.
use helvilette.Prelude.{◌+◌, false, ◌≡◌, refl, [], ◌∷◌}
use helvilette.Storage.Memory.{
  memory_nodes, memory_reports, memory_nodes-IsNodeStore, memory_reports-IsReportStore, list, save,
}
use helvilette.Storage.Memory
use helvilette.Agent.Sample.{world, machine, config, nginx_job}
use helvilette.Agent.Process.{new_agent, ticking, polling, run}
use helvilette.System.{online}
use helvilette.System.Beside.{machine_beside}
use helvilette.System.Steps.{Settled}
use helvilette.System.Convergence.{run-Settled}
use helvilette.System.Sample.{
  wire, server, wired, nginx-IsWritable, first-fails, second-succeeds, chosen, real,
  memory-AcceptsReports,
}

run-Settled_example :
    ((run
        (machine_beside machine)
        (online wire)
        ((false, false) ∷ [])
        (ticking (1 + 2))
        (new_agent config, (server, world 0 0))).1
      ≡ polling)
    × Settled machine config nginx_job memory_reports-IsReportStore memory-AcceptsReports wire wired
        (λ m. refl)
        nginx-IsWritable
        2
        []
        (world 0 0)
        (run
          (machine_beside machine)
          (online wire)
          ((false, false) ∷ [])
          (ticking (1 + 2))
          (new_agent config, (server, world 0 0))).0
unfolding Memory.register list save
run-Settled_example =
    run-Settled machine config nginx_job memory_reports-IsReportStore memory-AcceptsReports wire
      wired (λ m. refl) nginx-IsWritable memory_nodes-IsNodeStore 1 1 false [] server (world 0 0) []
      refl chosen real first-fails second-succeeds refl
