-- ===== src/Server/Tests.antt =====
-- Runs of the server on the sample disk, and its theorems there.
use helvilette.Prelude.{
  String, ◌≡◌, refl, ◌↔◌, ◌⊎◌, true, false, Option, none, some, ok, [], ◌∷◌, ◌++◌, map, All, arith,
  ◌==◌, eq_iff, if◌then◌else◌,
}
use helvilette.Prelude.Dict.{Dict, lookup}
use helvilette.Storage.{NodeStore, IsNodeStore}
use helvilette.Storage.Memory
use helvilette.Storage.Memory.{
  memory_nodes, memory_reports, memory_nodes-IsNodeStore, memory_reports-IsReportStore, list, save,
}
use helvilette.Playbook.Loader.Sample.{entries, disk, loader, nginx, sample_scan}
use helvilette.Server.{
  Server, registration, job, has_manifests, choose_job, handle_register_node, handle_sync,
  json_response, http_error, text, not_registered, labels_of,
}
use helvilette.Server.Sync.{Passes, IsFirstMatch, IsFallback}
use helvilette.Server.Sync.Answers.{Answer, choose_job_iff, handle_sync-Answer}
use helvilette.Server.Stores.{after_register, refused_registration}
use helvilette.Server.Trace.{run, answers}
use helvilette.Server.Trace.Reports.{posted, run-listed}
use helvilette.Server.Trace.Backends.{Alike, answers_same}
use helvilette.Server.Start.{load_playbooks, new_server_with_loader}
use helvilette.Server.Start.Fallback.{loaded_idle_iff}
use helvilette.Server.Start.Dispatch.{IsDeclared, loaded_jobs}
use helvilette.Server.Sample.{edge, edge_node, done, decoder, mux, day, server, edge_job, serving}

day-answers :
    answers decoder mux server day
    ≡ not_registered
      ∷ json_response 200 (registration edge_node)
      ∷ json_response 200 (job edge_job)
      ∷ record { code = 200; content_type = ""; body = text "Report received" }
      ∷ http_error 400 (text "EOF")
      ∷ []
unfolding serving
day-answers = refl

day_reports : memory_reports.list (run decoder mux server day).reports ≡ ok (done ∷ [])
unfolding serving
day_reports = refl

chosen : choose_job "" server.current_job server.playbooks edge ≡ some edge_job
unfolding serving
chosen = refl

choose_job_iff_example :
    (choose_job "" server.current_job server.playbooks edge ≡ some edge_job) ↔ (
      IsFirstMatch "" edge server.playbooks edge_job
      ⊎ IsFallback server.current_job server.playbooks edge_job)
choose_job_iff_example = choose_job_iff "" server.current_job server.playbooks edge edge_job

handle_sync-Answer_example :
    Answer
      (memory_nodes.is_registered server.nodes "a")
      ""
      server.current_job
      server.playbooks
      (labels_of memory_nodes server.nodes "a")
      (handle_sync "" server "a")
handle_sync-Answer_example = handle_sync-Answer "" server "a"

-- A store that can write nothing, such as a full disk.
abbrev full_store : NodeStore
full_store = record {
  State = Unit {0};
  register = λ s n l. (s, some "disk full");
  get_labels = λ s n. none;
  is_registered = λ s n. false;
}

full_store-IsNodeStore : IsNodeStore full_store
full_store-IsNodeStore = record {
  registered = λ s n l m h. absurd (cc);
  labelled = λ s n l m k h. absurd (cc);
  refused = λ s n l e m h. refl;
  refused_labels = λ s n l e m k h. refl;
}

abbrev full_server : Server full_store memory_reports
full_server = record {
  loader = none;
  current_job = edge_job;
  playbooks = [];
  nodes = tt;
  reports = record { reports = [] };
  ready = true;
  debug_mode = false;
}

refused_registration_example :
    ((handle_register_node decoder full_server "register a").1
      ≡ json_response 200 (registration edge_node))
    × (handle_sync "" (after_register decoder full_server "register a") "a" ≡ not_registered)
refused_registration_example =
    refused_registration full_store-IsNodeStore "" decoder full_server "register a" "disk full"
      edge_node refl refl refl

run-listed_example :
    memory_reports.list (run decoder mux server day).reports
    ≡ ok ([] ++ map (λ r. r) (posted decoder mux day))
unfolding list save new_server_with_loader
run-listed_example =
    run-listed memory_reports-IsReportStore (λ s r. refl) decoder mux server day [] refl

loaded_idle_iff_example :
    (choose_job ""
        (load_playbooks disk "" "0" (loader "/srv")).current_job
        (load_playbooks disk "" "0" (loader "/srv")).playbooks
        []
      ≡ none)
    ↔ (All (Passes []) (load_playbooks disk "" "0" (loader "/srv")).playbooks
        × (has_manifests (load_playbooks disk "" "0" (loader "/srv")).playbooks ≡ true))
loaded_idle_iff_example = loaded_idle_iff disk "" "0" (loader "/srv") []

loaded_jobs_example :
    IsDeclared edge (nginx ∷ []) edge_job
    ⊎ IsFallback (load_playbooks disk "" "0" (loader "/srv")).current_job (nginx ∷ []) edge_job
unfolding serving
loaded_jobs_example =
    loaded_jobs disk "" "0" (loader "/srv") entries (nginx ∷ []) edge edge_job refl sample_scan refl

-- The same requests over the in-memory store and over one that keeps its nodes as a function.
abbrev table_nodes : NodeStore
table_nodes = record {
  State = String → Option (Dict String);
  register = λ s n l. ((λ m. if n == m then some l else s m), none);
  get_labels = λ s n. s n;
  is_registered = λ s n. elim (s n) [ none ↦ false | some _ ↦ true ];
}

table_nodes-IsNodeStore : IsNodeStore table_nodes
table_nodes-IsNodeStore = record {
  registered = λ s n l m h. ground (arith, eq_iff n m);
  labelled = λ s n l m k h. ground (arith, eq_iff n m);
  refused = λ s n l e m h. absurd (cc);
  refused_labels = λ s n l e m k h. absurd (cc);
}

abbrev table_server : Server table_nodes memory_reports
table_server = record {
  loader = server.loader;
  current_job = server.current_job;
  playbooks = server.playbooks;
  nodes = λ n. none;
  reports = record { reports = [] };
  ready = true;
  debug_mode = false;
}

servers-Alike : Alike server table_server
unfolding Memory.get_labels Memory.is_registered lookup new_server_with_loader
servers-Alike = record {
  loader = refl;
  current_job = refl;
  playbooks = refl;
  ready = refl;
  nodes = record { known = λ n. refl; labels = λ n k. refl };
}

memory_accepts :
    (s : memory_nodes.State) (n : String) (l : Dict String) → (memory_nodes.register s n l).1 ≡ none
unfolding Memory.register
memory_accepts s n l = refl

answers_same_example : answers decoder mux server day ≡ answers decoder mux table_server day
answers_same_example =
    answers_same memory_nodes-IsNodeStore table_nodes-IsNodeStore memory_accepts (λ s n l. refl)
      decoder mux server table_server day servers-Alike
