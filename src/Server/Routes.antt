-- ===== src/Server/Routes.antt =====
-- `setupRoutes` of cmd/othela/server.go, and the handling of one request. How gorilla/mux picks a
-- route for a method and a path, and what it answers when there is none, is a parameter.
use helvilette.Prelude.{String, Result, ok, err, List, [], ◌∷◌}
use helvilette.Prelude.Dict.{Dict, get}
use helvilette.Storage.{NodeStore, ReportStore}
use helvilette.Playbook.Loader.{Disk}
use helvilette.Server.{
  Server, Decoder, Response, handle_register_node, handle_sync, handle_report, handle_playbooks,
  handle_healthz, handle_readyz,
}

pub data Endpoint : Type 0 where
  register_node sync report playbooks healthz readyz : Endpoint

pub record Route : Type 0 where
  pub path : String
  pub method : String
  pub endpoint : Endpoint

abbrev route : String → String → Endpoint → Route
route path method endpoint = record { path = path; method = method; endpoint = endpoint }

unfoldable pub setup_routes : List Route
setup_routes =
    route "/api/v1/nodes/register" "POST" register_node
    ∷ route "/api/v1/sync/{node_id}" "GET" sync
    ∷ route "/api/v1/report" "POST" report
    ∷ route "/api/v1/playbooks" "GET" playbooks
    ∷ route "/healthz" "GET" healthz
    ∷ route "/readyz" "GET" readyz
    ∷ []

-- A request, and what the environment holds when it arrives: the disk, and HELV_TEST_REPO_URL.
pub record Request : Type 0 where
  pub method : String
  pub path : String
  pub body : String
  pub disk : Disk
  pub env : String

abbrev pub Mux : Type 0
Mux = List Route → String → String → Result Response (Endpoint × Dict String)

module _ {N : NodeStore} {R : ReportStore} (decoder : Decoder) where
  unfoldable pub handle : Endpoint → Dict String → Server N R → Request → Server N R × Response
  handle register_node vars s r = handle_register_node decoder s r.body
  handle sync vars s r = (s, handle_sync r.env s (get vars "node_id"))
  handle report vars s r = handle_report decoder s r.body
  handle playbooks vars s r = handle_playbooks r.disk s
  handle healthz vars s r = (s, handle_healthz)
  handle readyz vars s r = (s, handle_readyz s)

  handle_match :
      Result Response (Endpoint × Dict String) → Server N R → Request → Server N R × Response
  handle_match (err response) s r = (s, response)
  handle_match (ok (endpoint, vars)) s r = handle endpoint vars s r

  unfoldable pub serve : Mux → Server N R → Request → Server N R × Response
  unfolding handle_match
  serve mux s r = handle_match (mux setup_routes r.method r.path) s r
