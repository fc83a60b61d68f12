-- ===== src/Othela.antt =====
-- cmd/othela/main.go: the flags, what the server is started with, and the shutdown. The listener and
-- the signals are parameters: what the drain and the closing of each resource give.
mod RemovedFlag
mod Drain
mod Start
mod Process
mod Tests
use helvilette.Prelude.{
  ℕ, String, Bool, true, false, Option, none, some, Result, ok, err, List, [], ◌∷◌, ◌==◌, ◌||◌,
  if◌then◌else◌,
}
use helvilette.Prelude.Text.{has_prefix}
use helvilette.FilePath.{◌<>◌, join, dir}
use helvilette.Storage.{NodeStore, ReportStore}
use helvilette.Storage.Sqlite.{
  Engine, Error, SqliteStore, sqlite_nodes, sqlite_reports, new_sqlite_store,
}
use helvilette.Playbook.Loader.{Disk, Loader, new_loader}
use helvilette.Server.{Server, set_ready}
use helvilette.Server.Start.{ServerConfig, NodeBackend, ReportBackend}

abbrev pub removed_data_dir_flag : String
removed_data_dir_flag = "--data-dir"

abbrev pub removed_data_dir_shorthand : String
removed_data_dir_shorthand = "-d"

unfoldable pub is_removed_data_dir_arg : String → Bool
is_removed_data_dir_arg arg =
    arg == removed_data_dir_flag
    || has_prefix arg (removed_data_dir_flag <> "=")
    || arg == removed_data_dir_shorthand
    || has_prefix arg (removed_data_dir_shorthand <> "=")

abbrev pub removed_flag_message : String
removed_flag_message =
    "--data-dir was removed: it named the playbook directory but also received the SQLite state at {data-dir}/server/db/state.db. Use --playbook-dir for read-only playbooks (default \"helvilette/othela/data/playbooks\") and --state-dir for writable state (default \"/var/lib/helvilette/othela\")."

unfoldable pub removed_flag_error : List String → Option String
removed_flag_error [] = none
removed_flag_error (arg ∷ args) =
    let rest = removed_flag_error args in
    if is_removed_data_dir_arg arg then some removed_flag_message else rest

abbrev pub default_playbook_dir : String
default_playbook_dir = "helvilette/othela/data/playbooks"

abbrev pub default_state_dir : String
default_state_dir = "/var/lib/helvilette/othela"

pub record Flags : Type 0 where
  pub port : ℕ
  pub playbook_dir : String
  pub state_dir : String
  pub log_level : String

abbrev pub default_flags : Flags
default_flags = record {
  port = 8080;
  playbook_dir = default_playbook_dir;
  state_dir = default_state_dir;
  log_level = "info";
}

abbrev pub db_path : String → String
db_path state_dir = join (state_dir ∷ "db" ∷ "state.db" ∷ [])

-- One store for the nodes and the reports, which are in tables of their own.
abbrev node_backend : (E : Engine) → Result Error (SqliteStore E) → Option NodeBackend
node_backend E (err e) = none
node_backend E (ok db) = some (record { store = sqlite_nodes E; state = db })

abbrev report_backend : (E : Engine) → Result Error (SqliteStore E) → Option ReportBackend
report_backend E (err e) = none
report_backend E (ok db) = some (record { store = sqlite_reports E; state = db })

-- Without the database the server keeps all in memory, and without the loader it has no playbooks.
unfoldable pub server_config : Engine → Disk → Flags → ServerConfig
server_config E disk flags =
    let opened = new_sqlite_store E dir (db_path flags.state_dir) in
    record {
      node_store = node_backend E opened;
      report_store = report_backend E opened;
      loader = elim (new_loader disk flags.playbook_dir) [ err e ↦ none | ok l ↦ some l ];
      debug_mode = flags.log_level == "debug";
    }

-- Why the process waits no longer.
pub data Wake : Type 0 where
  signal : Wake
  serve_error : String → Wake

-- How the process ends, with the resources that it has closed.
pub data Exit : Type 0 where
  stopped : List String → Exit
  fatal : String → Exit

-- The closing of each resource; its error is only logged.
unfoldable pub close_all : List (String × Option String) → List String
close_all [] = []
close_all ((name, failure) ∷ closers) = name ∷ close_all closers

module _ {N : NodeStore} {R : ReportStore} where
  -- From the wake-up on: the server during the drain, and the end. `drained` is what `Shutdown` gives.
  unfoldable pub shutdown :
      Wake → Option String → List (String × Option String) → Server N R → Server N R × Exit
  shutdown (serve_error e) drained closers s = (s, fatal e)
  shutdown signal drained closers s =
      (set_ready s false, elim drained [ none ↦ stopped (close_all closers) | some e ↦ fatal e ])
