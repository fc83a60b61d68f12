-- ===== src/Server/Trace/Fleet/Tests.antt =====
-- The fleet after a day of the sample server, and labels in two orders.
use mathlib.Core.Quot
use helvilette.Prelude.{String, ◌≡◌, refl, none, some, [], ◌∷◌, arith, eq_iff}
use helvilette.Prelude.Dict.{Dict, lookup}
use helvilette.Storage.Memory
use helvilette.Storage.Memory.{memory_nodes, memory_nodes-IsNodeStore}
use helvilette.Server.{handle_sync}
use helvilette.Server.Sample.{edge, decoder, mux, day, server, edge_job, serving}
use helvilette.Server.Trace.{run}
use helvilette.Server.Trace.Fleet.{
  Labels, answer, enrol, enrolled, admit, admit_all, fleet_in, job_for,
}
use helvilette.Server.Trace.Fleet.Refines.{run-answer}

two_orders :
    ◌≡◌ {A = Labels}
      (Quot.mk (("role", "edge") ∷ ("env", "prod") ∷ []))
      (Quot.mk (("env", "prod") ∷ ("role", "edge") ∷ []))
unfolding lookup
two_orders = Quot.sound λ k. ground (arith, eq_iff "role" k, eq_iff "env" k, eq_iff "role" "env")

day_fleet : admit_all decoder mux day (λ n. none) "a" ≡ some (Quot.mk edge)
unfolding admit_all admit enrolled enrol
day_fleet = refl

edge_answer : job_for "" server.current_job server.playbooks (Quot.mk edge) ≡ some edge_job
unfolding job_for serving
edge_answer = refl

memory_accepts :
    (s : memory_nodes.State) (n : String) (l : Dict String) → (memory_nodes.register s n l).1 ≡ none
unfolding Memory.register
memory_accepts s n l = refl

run-answer_example :
    handle_sync "" (run decoder mux server day) "a"
    ≡ answer "" server.current_job server.playbooks
        (admit_all decoder mux day (fleet_in memory_nodes server.nodes) "a")
run-answer_example =
    run-answer memory_nodes-IsNodeStore memory_accepts decoder mux "" server day "a"
