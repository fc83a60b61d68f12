-- ===== src/Server/Http.antt =====
-- The accessors of cmd/othela/server.go, and the HTTP server that it makes.
use helvilette.Prelude.{ℕ, String, Bool, Option, List}
use helvilette.Types.{Job}
use helvilette.Storage.{NodeStore, ReportStore}
use helvilette.Playbook.Loader.{Loader}
use helvilette.Server.{Server}
use helvilette.Server.Routes.{Route, setup_routes}

-- The fields of `http.Server` that are set; its times are in seconds.
pub record HttpServer : Type 0 where
  pub addr : String
  pub handler : List Route
  pub read_timeout : ℕ
  pub write_timeout : ℕ
  pub idle_timeout : ℕ

module _ {N : NodeStore} {R : ReportStore} where
  -- `Router`: the routes do not depend on the server's state.
  unfoldable pub router : Server N R → List Route
  router s = setup_routes

  unfoldable pub new_http_server : Server N R → String → HttpServer
  new_http_server s addr = record {
    addr = addr;
    handler = router s;
    read_timeout = 10;
    write_timeout = 10;
    idle_timeout = 60;
  }

  abbrev pub get_current_job : Server N R → Job
  get_current_job s = s.current_job

  abbrev pub is_ready : Server N R → Bool
  is_ready s = s.ready

  abbrev pub get_loader : Server N R → Option Loader
  get_loader s = s.loader
