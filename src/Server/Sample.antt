-- ===== src/Server/Sample.antt =====
-- A server on the sample disk, and the requests of a day.
use helvilette.Prelude.{String, ok, err, List, [], ◌∷◌, ◌==◌, if◌then◌else◌}
use helvilette.Prelude.Dict.{Dict, lookup, insert, get}
use helvilette.Types.{Job, Report}
use helvilette.Manifest.Matching.{match_node_groups}
use helvilette.Storage.Memory
use helvilette.Storage.Memory.{
  memory_nodes, memory_reports, memory_nodes-IsNodeStore, memory_reports-IsReportStore, list, save,
}
use helvilette.Playbook.Loader.{load, get_playbook}
use helvilette.Playbook.Loader.Sample.{disk, loader, scanning}
use helvilette.Server.{
  NodeRegistration, Decoder, match_job, match_playbooks, choose_job, handle_register_node,
  handle_sync, handle_report, http_error, text,
}
use helvilette.Server.Routes.{
  register_node, sync, report, Mux, Request, setup_routes, handle, serve,
}
use helvilette.Server.Trace.{run, answers}
use helvilette.Server.Start.{MemoryServer, load_playbooks, new_server_with_loader}

abbrev pub edge : Dict String
edge = ("role", "edge") ∷ []

abbrev pub edge_node : NodeRegistration
edge_node = record { node_id = "a"; labels = edge }

abbrev pub done : Report
done = record { node_id = "a"; job_id = "job-ab01-edge"; status = "Success"; task_logs = "{}" }

abbrev pub decoder : Decoder
decoder = record {
  registration = λ body. if body == "register a" then ok edge_node else err "invalid character";
  report = λ body. if body == "done" then ok done else err "EOF";
}

abbrev pub mux : Mux
mux routes method path =
    if path == "/api/v1/nodes/register"
    then ok (register_node, [])
    else if path == "/api/v1/sync/a"
    then ok (sync, ("node_id", "a") ∷ [])
    else if path == "/api/v1/report"
    then ok (report, [])
    else err (http_error 404 (text "404 page not found"))

abbrev pub request : String → String → String → Request
request method path body = record {
  method = method;
  path = path;
  body = body;
  disk = disk;
  env = "";
}

abbrev pub day : List Request
day =
    request "GET" "/api/v1/sync/a" ""
    ∷ request "POST" "/api/v1/nodes/register" "register a"
    ∷ request "GET" "/api/v1/sync/a" ""
    ∷ request "POST" "/api/v1/report" "done"
    ∷ request "POST" "/api/v1/report" "garbled"
    ∷ []

abbrev pub server : MemoryServer
server = new_server_with_loader disk "" "1700000000" (loader "/srv")

abbrev pub edge_job : Job
edge_job = record {
  job_id = "job-ab01-edge";
  repo_url = "repo.git";
  version = "main";
  playbook_content = "";
  playbook_path = "site.yml";
  extra_vars = [];
}

-- Unfolding this opens all that the requests of the day call.
unfoldable pub serving : Unit {0}
unfolding scanning load get_playbook load_playbooks new_server_with_loader run answers serve handle
    setup_routes handle_register_node handle_sync handle_report choose_job match_playbooks match_job
    match_node_groups get lookup insert Memory.register Memory.get_labels Memory.is_registered save
    list
serving = tt
