-- ===== src/Server/Interleaved.antt =====
-- `handleSync` of cmd/othela/server.go in its steps, among other requests: it asks the node store
-- twice, and takes the server's lock only then. Every other handler asks a store once at most, and so
-- is one step.
mod Linear
mod Tests
use helvilette.Prelude.{ℕ, zero, suc, String, List, [], ◌∷◌, if◌then◌else◌}
use helvilette.Prelude.Dict.{Dict}
use helvilette.Storage.{NodeStore, ReportStore}
use helvilette.Server.{
  Server, Decoder, Response, not_registered, labels_of, job_response, choose_job,
}
use helvilette.Server.Routes.{Mux, Request, serve}

-- How far a poll is: not begun, past `IsRegistered`, past `GetLabels`, or answered.
pub data Poll : Type 0 where
  started checked : String → Poll
  labelled : Dict String → Poll
  answered : Response → Poll

-- What happens next: another request is served, or the poll does its next step.
pub data Action : Type 0 where
  other : Request → Action
  step : Action

unfoldable pub others : List Action → List Request
others [] = []
others (other r ∷ actions) = r ∷ others actions
others (step ∷ actions) = others actions

unfoldable pub steps : List Action → ℕ
steps [] = zero
steps (other r ∷ actions) = steps actions
steps (step ∷ actions) = suc (steps actions)

module _ {N : NodeStore} {R : ReportStore} (decoder : Decoder) (mux : Mux) (env : String) where
  unfoldable pub sync_step : Server N R → Poll → Poll
  sync_step s (started node_id) =
      if N.is_registered s.nodes node_id then checked node_id else answered not_registered
  sync_step s (checked node_id) = labelled (labels_of N s.nodes node_id)
  sync_step s (labelled labels) =
      answered (job_response (choose_job env s.current_job s.playbooks labels))
  sync_step s (answered response) = answered response

  unfoldable pub interleaved : List Action → Server N R → Poll → Server N R × Poll
  interleaved [] s p = (s, p)
  interleaved (other r ∷ actions) s p = interleaved actions (serve decoder mux s r).0 p
  interleaved (step ∷ actions) s p = interleaved actions s (sync_step s p)
