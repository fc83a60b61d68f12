-- ===== src/System/Network.antt =====
-- The agent of cmd/agent/main.go and the control plane of cmd/othela/server.go over a network that
-- loses requests and responses, while other nodes use the control plane too.
mod Grown
mod Requests
mod Exchanges
mod Registration
mod Ticks
pub mod Delivery
pub mod Whole
mod Tests
use helvilette.Prelude.{String, ◌≡◌, ◌≢◌, Result, ok, err, List, [], ◌∷◌}
use helvilette.Types.{Report}
use helvilette.Storage.{NodeStore, ReportStore}
use helvilette.Server.{Server, NodeRegistration}
use helvilette.Server.Routes.{Request, serve}
use helvilette.Agent.Client.{Client, HttpResponse}
use helvilette.System.{Wire, request, http_response}

-- What happens to the agent's next exchange: a request of another node comes first; it takes place;
-- its request is lost; or its response is.
pub data Event : Type 0 where
  other : Request → Event
  delivered request_lost response_lost : Event

-- The server, and what the network has in store. An exchange takes place once nothing is left.
abbrev pub Net : NodeStore → ReportStore → Type 0
Net N R = Server N R × List Event

module _ (wire : Wire) where
  -- The request of another node names neither this node's registration nor one of its reports.
  pub record IsForeign (node_id : String) (q : Request) : Type 0 where
    pub registration :
        (req : NodeRegistration) → wire.decoder.registration q.body ≡ ok req → req.node_id ≢ node_id
    pub report : (r : Report) → wire.decoder.report q.body ≡ ok r → r.node_id ≢ node_id

  abbrev pub IsForeignEvent : String → Event → Type 0
  IsForeignEvent node_id (other q) = IsForeign node_id q
  IsForeignEvent node_id delivered = Unit
  IsForeignEvent node_id request_lost = Unit
  IsForeignEvent node_id response_lost = Unit

  module _ {N : NodeStore} {R : ReportStore} where
    unfoldable pub deliver :
        List Event → Server N R → Request → Net N R × Result String HttpResponse
    deliver [] s r =
        let (s', response) = serve wire.decoder wire.mux s r in
        ((s', []), ok (http_response wire response))
    deliver (other q ∷ events) s r = deliver events (serve wire.decoder wire.mux s q).0 r
    deliver (delivered ∷ events) s r =
        let (s', response) = serve wire.decoder wire.mux s r in
        ((s', events), ok (http_response wire response))
    deliver (request_lost ∷ events) s r = ((s, events), err "connection refused")
    deliver (response_lost ∷ events) s r =
        (((serve wire.decoder wire.mux s r).0, events), err "connection reset")

    -- The agent's HTTP client over this network.
    abbrev pub lossy : {V : Type 0} → Client (Net N R × V)
    lossy = record {
      get_url = λ ((s, events), v) url.
          let (net, result) = deliver events s (request wire "GET" url "") in ((net, v), result);
      post = λ ((s, events), v) url body.
          let (net, result) = deliver events s (request wire "POST" url body) in ((net, v), result);
      marshal_registration = wire.marshal_registration;
      marshal_report = wire.marshal_report;
      decode_job = wire.decode_job;
    }
