-- ===== src/System.antt =====
-- One agent of cmd/agent/main.go and the control plane of cmd/othela/server.go, joined by a network
-- that loses nothing. The world is the server's state beside the agent's machine.
mod Beside
mod Exchange
mod Steps
mod Convergence
mod Network
mod Deployed
mod Update
mod Restart
mod Sample
mod Tests
use helvilette.Prelude.{ℕ, String, Bool, true, Result, ok, ◌≡◌}
use helvilette.Prelude.Dict.{Dict, get}
use helvilette.FilePath.{◌<>◌}
use helvilette.Types.{Job, Report}
use helvilette.Storage.{NodeStore, ReportStore}
use helvilette.Playbook.Loader.{Disk}
use helvilette.Server.{Server, Decoder, Body, job, Response, NodeRegistration}
use helvilette.Server.Routes.{
  Mux, Request, serve, setup_routes, Endpoint, register_node, sync, report,
}
use helvilette.Agent.{AgentConfiguration}
use helvilette.Agent.Client.{Client, HttpResponse}

-- What lies between the two programs: the JSON codecs of both sides, the router, the path of a URL,
-- and the disk and environment of the control plane. `compact` is what `json.Marshal` makes of the raw
-- JSON of a task log: it drops the white space and escapes what HTML reserves.
pub record Wire : Type 0 where
  pub decoder : Decoder
  pub mux : Mux
  pub path_of : String → String
  pub encode : Body → String
  pub status_line : ℕ → String
  pub marshal_registration : String → Dict String → String
  pub marshal_report : Report → Result String String
  pub decode_job : String → Result String Job
  pub compact : String → String
  pub disk : Disk
  pub env : String

module _ (wire : Wire) where
  abbrev pub request : String → String → String → Request
  request method url body = record {
    method = method;
    path = wire.path_of url;
    body = body;
    disk = wire.disk;
    env = wire.env;
  }

  abbrev pub http_response : Response → HttpResponse
  http_response r = record {
    code = r.code;
    status = wire.status_line r.code;
    body = wire.encode r.body;
  }

  module _ {N : NodeStore} {R : ReportStore} {V : Type 0} where
    abbrev pub exchange : Server N R × V → Request → (Server N R × V) × Result String HttpResponse
    exchange (s, v) r =
        let (s', response) = serve wire.decoder wire.mux s r in
        ((s', v), ok (http_response response))

    -- The agent's HTTP client, when the server answers.
    abbrev pub online : Client (Server N R × V)
    online = record {
      get_url = λ w url. exchange w (request "GET" url "");
      post = λ w url body. exchange w (request "POST" url body);
      marshal_registration = wire.marshal_registration;
      marshal_report = wire.marshal_report;
      decode_job = wire.decode_job;
    }

  -- The report as it arrives.
  abbrev pub arriving : Report → Report
  arriving r = record r { task_logs = wire.compact r.task_logs }

  abbrev pub Routed : String → String → Endpoint → Dict String → Type 0
  Routed method url endpoint vars =
      wire.mux setup_routes method (wire.path_of url) ≡ ok (endpoint, vars)

  -- The agent's three URLs lead to their handlers, and what one side encodes the other decodes: the
  -- registration, the job, and those of the reports in question whose task log is JSON, but that the
  -- task log arrives compact.
  pub record IsWired {Duration : Type 0} (config : AgentConfiguration Duration)
      (json_valid : String → Bool) (j : Job) (Issued : Report → Type 0) : Type 0 where
    pub register_vars : Dict String
    pub register_route :
        Routed "POST" (config.othela_url <> "/nodes/register") register_node register_vars
    pub sync_vars : Dict String
    pub sync_route : Routed "GET" (config.othela_url <> "/sync/" <> config.node_id) sync sync_vars
    pub sync_id : get sync_vars "node_id" ≡ config.node_id
    pub report_vars : Dict String
    pub report_route : Routed "POST" (config.othela_url <> "/report") report report_vars
    pub registration :
        wire.decoder.registration (wire.marshal_registration config.node_id config.labels)
        ≡ ok (record { node_id = config.node_id; labels = config.labels })
    pub report_text : Report → String
    pub report_encoded :
        (r : Report)
        → Issued r
        → json_valid r.task_logs ≡ true
        → wire.marshal_report r ≡ ok (report_text r)
    pub report_decoded :
        (r : Report)
        → Issued r
        → json_valid r.task_logs ≡ true
        → wire.decoder.report (report_text r) ≡ ok (arriving r)
    pub job_decoded : wire.decode_job (wire.encode (job j)) ≡ ok j
