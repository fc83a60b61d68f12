-- ===== src/Othela/Tests.antt =====
-- Arguments and a shutdown of the control plane, and the theorems there.
use helvilette.Prelude.{
  String, ◌≡◌, ◌⊎◌, ◌==◌, if◌then◌else◌, refl, Option, none, some, ok, err, List, [], ◌∷◌, map,
}
use helvilette.Prelude.Text.{has_prefix}
use helvilette.Playbook.Loader.Sample.{disk}
use helvilette.Server.{
  handle_sync, not_registered, job_response, Decoder, handle_readyz, http_error, json_response,
  status, text,
}
use helvilette.Server.Routes.{Mux, Request, readyz}
use helvilette.Server.Start.{new_server_with_config, MemoryServer, new_server}
use helvilette.Server.Trace.{run}
use helvilette.Server.Sample
use helvilette.Storage.Sqlite.{Engine}
use helvilette.Playbook.Loader.{new_loader, not_a_directory}
use helvilette.Othela.Start.{unusable_playbooks}
use helvilette.Othela.{
  Flags, server_config, removed_flag_error, removed_flag_message, is_removed_data_dir_arg, signal,
  stopped, fatal, shutdown,
}
use helvilette.Othela.Drain.{shutdown-Drains}

removed_flag_error_tests :
    (removed_flag_error ("--port" ∷ "80" ∷ "--data-dir=/srv" ∷ []) ≡ some removed_flag_message)
    × (removed_flag_error ("-d" ∷ "/srv" ∷ []) ≡ some removed_flag_message)
    × (removed_flag_error ("--playbook-dir" ∷ "/srv" ∷ "--data-directory" ∷ []) ≡ none)
unfolding removed_flag_error is_removed_data_dir_arg has_prefix
removed_flag_error_tests = (refl, refl, refl)

abbrev decoder : Decoder
decoder = record { registration = λ body. err "EOF"; report = λ body. err "EOF" }

abbrev mux : Mux
mux routes method path =
    if path == "/readyz" then ok (readyz, []) else err (http_error 404 (text "404 page not found"))

abbrev probe : Request
probe = record { method = "GET"; path = "/readyz"; body = ""; disk = disk; env = "" }

abbrev server : MemoryServer
server = new_server "0"

abbrev closers : List (String × Option String)
closers = ("sqlite", some "busy") ∷ []

abbrev drained : Option String
drained = none

shutdown-Drains_example :
    (handle_readyz (run decoder mux (shutdown signal drained closers server).0 (probe ∷ []))
      ≡ json_response 503 (status "not_ready"))
    × (((drained ≡ none)
          × ((shutdown signal drained closers server).1 ≡ stopped (map (λ c. c.0) closers)))
        ⊎ ((e : String) × (drained ≡ some e)
            × ((shutdown signal drained closers server).1 ≡ fatal e)))
shutdown-Drains_example = shutdown-Drains decoder mux drained closers server (probe ∷ [])

-- A machine with no place for a database and no playbook directory.
abbrev no_engine : Engine
no_engine = record {
  Json = Unit {0};
  marshal = λ labels. ok tt;
  unmarshal = λ json. none;
  Db = Unit {0};
  mkdir_all = λ path. some "permission denied";
  open_db = λ path. err "no database";
  exec_schema = λ db. (db, none);
  upsert_node = λ db n j. (db, none);
  select_labels = λ db n. none;
  select_one = λ db n. none;
  insert_report = λ db row. (db, none);
  select_reports = λ order db. err "no database";
}

abbrev flags : Flags
flags = record { port = 8080; playbook_dir = "/gone"; state_dir = "/state"; log_level = "info" }

no_directory : new_loader disk "/gone" ≡ err (not_a_directory "/gone")
unfolding new_loader
no_directory = refl

unusable_playbooks_example :
    (handle_sync ""
        (run Sample.decoder Sample.mux
          (new_server_with_config disk "" "0" (server_config no_engine disk flags))
          Sample.day)
        "a"
      ≡ not_registered)
    ⊎ (handle_sync ""
          (run Sample.decoder Sample.mux
            (new_server_with_config disk "" "0" (server_config no_engine disk flags))
            Sample.day)
          "a"
        ≡ job_response none)
unusable_playbooks_example =
    unusable_playbooks no_engine disk flags (not_a_directory "/gone") Sample.decoder Sample.mux ""
      "0" "" "a" Sample.day no_directory
