-- ===== src/System/Restart.antt =====
-- A restart of cmd/othela without its database, seen from an agent of cmd/agent that goes on.
mod Tests
use helvilette.Prelude.{String, Bool, none, some, Option, ok}
use helvilette.Prelude.Dict.{Dict}
use helvilette.Storage.Memory.{memory_nodes}
use helvilette.Storage.Memory
use helvilette.Playbook.Loader.{Disk, Loader}
use helvilette.Server.{Server}
use helvilette.Server.Start.{ReportBackend, report_backend, new_server_with_config}
use helvilette.Agent.{AgentConfiguration}
use helvilette.Agent.Client.{PollError}
use helvilette.Agent.Process.{Agent}

abbrev pub restarted :
    Disk
    → String
    → String
    → (reports : Option ReportBackend) → Option Loader
    → Bool
    → Server memory_nodes (report_backend reports).store
restarted disk env now reports l debug =
    new_server_with_config disk env now
      (record { node_store = none; report_store = reports; loader = l; debug_mode = debug })
