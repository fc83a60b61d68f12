-- ===== src/Othela/Process.antt =====
-- The command and `main` of cmd/othela/main.go as one run of the process. The parsing of the flags,
-- the requests that are served, the signal, the drain and the closing of the database are parameters.
mod Laws
mod Tests
use helvilette.Prelude.{ℕ, String, Option, none, some, Result, ok, err, List, [], ◌∷◌}
use helvilette.FilePath.{◌<>◌, dir}
use helvilette.Storage.Sqlite.{Engine, new_sqlite_store}
use helvilette.Playbook.Loader.{Disk}
use helvilette.Server.{Server, Decoder}
use helvilette.Server.Routes.{Mux, Request}
use helvilette.Server.Start.{node_backend, report_backend, new_server_with_config}
use helvilette.Server.Http.{HttpServer, new_http_server}
use helvilette.Server.Trace.{run}
use helvilette.Othela.{
  Flags, default_flags, db_path, server_config, Wake, Exit, stopped, fatal, shutdown,
  removed_flag_error,
}

-- What happens to the process: the requests before the wake-up, the wake-up, and what `Shutdown` and
-- the `Close` of the database give.
pub record Life : Type 0 where
  pub served : List Request
  pub wake : Wake
  pub drained : Option String
  pub closing : Option String

-- What cobra makes of the arguments: it prints the help, gives an error, or runs the command.
pub data Parsed : Type 0 where
  help : Parsed
  misparsed : String → Parsed
  parsed : Flags → Parsed

pub data Ended : Type 0 where
  refused : String → Ended
  helped : Ended
  exited : Exit → Ended

-- `os.Exit` after an error, and `log.Fatalf`, end the process with 1.
unfoldable pub exit_status : Ended → ℕ
exit_status (refused message) = 1
exit_status helped = 0
exit_status (exited (fatal e)) = 1
exit_status (exited (stopped closed)) = 0

module _ (E : Engine) (disk : Disk) where
  -- `closers`: the database, if it was opened, with what its closing gives.
  unfoldable pub closers : Flags → Option String → List (String × Option String)
  closers flags closing = elim (new_sqlite_store E dir (db_path flags.state_dir)) [
    | err e ↦ []
    | ok db ↦ (db_path flags.state_dir, closing) ∷ []
  ]

  module _ (decoder : Decoder) (mux : Mux) (decimal : ℕ → String) (env now : String) where
    abbrev OthelaServer : Flags → Type 0
    OthelaServer flags =
        let cfg = server_config E disk flags in
        Server (node_backend cfg.node_store).store (report_backend cfg.report_store).store

    abbrev pub start_othela : (flags : Flags) → OthelaServer flags
    start_othela flags = new_server_with_config disk env now (server_config E disk flags)

    -- Where the server listens.
    unfoldable pub listening : Flags → HttpServer
    listening flags = new_http_server (start_othela flags) (":" <> decimal flags.port)

    unfoldable pub run_othela : (flags : Flags) → Life → OthelaServer flags × Exit
    run_othela flags life =
        shutdown life.wake life.drained (closers flags life.closing)
          (run decoder mux (start_othela flags) life.served)

    -- `main`; `parse` is what cobra makes of the defaults and the arguments.
    unfoldable pub othela_main : (Flags → List String → Parsed) → List String → Life → Ended
    othela_main parse args life = elim (removed_flag_error args) [
      | some message ↦ refused message
      | none ↦ elim (parse default_flags args) [
        | help ↦ helped
        | misparsed e ↦ refused e
        | parsed flags ↦ exited (run_othela flags life).1
      ]
    ]
