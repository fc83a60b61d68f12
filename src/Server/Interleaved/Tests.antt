-- ===== src/Server/Interleaved/Tests.antt =====
-- A poll on the sample server, among the requests of other nodes.
use helvilette.Prelude.{◌≡◌, refl, List, [], ◌∷◌, arith}
use helvilette.Storage.Memory.{memory_nodes-IsNodeStore}
use helvilette.Server.{Response, json_response, job}
use helvilette.Server.Sample.{decoder, mux, request, server, edge_job, serving}
use helvilette.Server.Interleaved.{
  started, answered, Action, other, step, steps, sync_step, interleaved,
}
use helvilette.Server.Interleaved.Linear.{IsAtomic, interleaved-IsAtomic}

-- The node registers before the poll's first step, and again between its reads of the store.
abbrev actions : List Action
actions =
    other (request "POST" "/api/v1/nodes/register" "register a")
    ∷ step
    ∷ other (request "POST" "/api/v1/nodes/register" "register a")
    ∷ step
    ∷ other (request "POST" "/api/v1/report" "done")
    ∷ step
    ∷ []

interleaved_test :
    (interleaved decoder mux "" actions server (started "a")).1
    ≡ answered (json_response 200 (job edge_job))
unfolding serving interleaved sync_step
interleaved_test = refl

interleaved-IsAtomic_example :
    (r : Response) × IsAtomic decoder mux "" server actions "a" r
    × ((interleaved decoder mux "" actions server (started "a")).1 ≡ answered r)
unfolding steps
interleaved-IsAtomic_example =
    interleaved-IsAtomic decoder mux "" memory_nodes-IsNodeStore actions server "a" (omega arith)
