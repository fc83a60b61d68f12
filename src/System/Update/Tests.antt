-- ===== src/System/Update/Tests.antt =====
-- The branch of the sample manifest changes after the sample agent has run the job.
use helvilette.Prelude.{Bool, ◌≡◌, refl, true, false, [], ◌∷◌, ℕ}
use helvilette.Prelude.Dict.{get, lookup, insert}
use helvilette.Storage.Memory.{memory_nodes, memory_reports}
use helvilette.Storage.Memory
use helvilette.Server.{Server}
use helvilette.Playbook.Loader.Sample.{loader, entries}
use helvilette.Server.Start.{new_server_with_config}
use helvilette.Agent.Sample.{world, machine}
use helvilette.Agent.Process.{Agent, ticks}
use helvilette.System.{online}
use helvilette.System.Beside.{machine_beside}
use helvilette.System.Exchange.{registered}
use helvilette.System.Deployed.{start, started-playbooks}
use helvilette.System.Deployed.Sample.{
  disk_of, nginx_of, scanned, cfg, config, edge_job, first_match, wire,
}
use helvilette.System.Update.{Scanned, update-Ignored}

sample-Scanned :
    (updated : Bool) → Scanned (disk_of updated) (loader "/srv") (nginx_of updated ∷ [])
sample-Scanned updated = record { entries = entries; readable = refl; found = scanned updated }

abbrev waiting : Agent ℕ
waiting = record { config = config; last_job_id = (edge_job false).job_id }

abbrev updated_server : Server memory_nodes memory_reports
updated_server = registered config (start (disk_of true) "" "1" cfg)

update-Ignored_example :
    ((edge_job true).job_id ≡ (edge_job false).job_id)
    × (ticks (machine_beside machine) (online (wire true)) 9 (waiting, (updated_server, world 2 0))
        ≡ (waiting, (updated_server, world 2 0)))
unfolding Memory.register Memory.is_registered Memory.get_labels get lookup insert
    new_server_with_config
update-Ignored_example =
    update-Ignored machine (wire true) waiting (("node_id", "edge-1") ∷ []) refl refl
      (disk_of false) (disk_of true) (loader "/srv") (loader "/srv") "" (nginx_of false ∷ [])
      (nginx_of true ∷ []) (edge_job false) (edge_job true) (first_match false) (first_match true) 9
      updated_server (world 2 0) refl (sample-Scanned false) (sample-Scanned true) refl refl refl
      (started-playbooks (disk_of true) "" "1" cfg (loader "/srv") (nginx_of true ∷ []) refl
        (scanned true))
      refl (λ key. refl) refl
