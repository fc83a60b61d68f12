-- ===== src/Server/Trace/Fleet.antt =====
-- What the polls of cmd/othela/server.go depend on: which nodes are registered, and with which labels,
-- whatever the order of their keys and whatever the store.
pub mod Refines
mod Tests
use mathlib.Core.Quot
use mathlib.Core.Quot.{Quot}
use text.Mathlib.TextEquality.{IsScalar-prop}
use helvilette.Prelude.{
  String, Bool, true, false, Bool-cases, ◌≡◌, ◌≢◌, not, refl, sym, ap, ◌∙◌, Option, none, some,
  Result-cases, ok, err, inl, inr, List, [], ◌∷◌, arith, eq_iff, ◌==◌, if◌then◌else◌,
}
use helvilette.Prelude.Dict.{Dict, lookup}
use helvilette.Types.{Job}
use helvilette.Storage.{NodeStore, ReportStore, label, IsNodeStore}
use helvilette.Manifest.Matching.Same.{SameMap}
use helvilette.Playbook.{Playbook}
use helvilette.Server.{
  Server, Response, Decoder, choose_job, labels_of, handle_sync, handle_register_node,
  handle_report, handle_playbooks, job_response, not_registered,
}
use helvilette.Server.Routes.{
  Endpoint, register_node, sync, report, playbooks, healthz, readyz, Mux, Request, handle, serve,
  setup_routes,
}
use helvilette.Server.Stores.{choose_job_same, lookup-labels_of}
use helvilette.Server.Trace.{run}
use helvilette.Server.Trace.Keeps.{run-SameConfig}

-- A map of labels, with no order.
abbrev pub Labels : Type 0
Labels = Quot SameMap

-- The registered nodes.
abbrev pub Fleet : Type 0
Fleet = String → Option Labels

pub Job-set : IsSet (Option Job)
Job-set = hlevel IsScalar-prop

unfoldable pub job_for : String → Job → List Playbook → Labels → Option Job
job_for env current_job pbs =
    Quot.lift Job-set (choose_job env current_job pbs)
      (λ l l' same. choose_job_same env l l' same current_job pbs)

unfoldable pub enrol : String → Labels → Fleet → Fleet
enrol node l fleet other = if node == other then some l else fleet other

-- The answer to a poll of the node.
abbrev pub answer : String → Job → List Playbook → Option Labels → Response
answer env current_job pbs none = not_registered
answer env current_job pbs (some l) = job_response (job_for env current_job pbs l)

module _ (decoder : Decoder) (mux : Mux) where
  -- Only a registration that decodes changes the fleet.
  unfoldable pub enrolled : Endpoint → Request → Fleet → Fleet
  enrolled register_node r fleet = elim (decoder.registration r.body) [
    | err e ↦ fleet
    | ok req ↦ enrol req.node_id (Quot.mk req.labels) fleet
  ]
  enrolled _ r fleet = fleet

  unfoldable pub admit : Request → Fleet → Fleet
  unfolding enrolled
  admit r fleet = elim (mux setup_routes r.method r.path) [
    | err response ↦ fleet
    | ok (endpoint, vars) ↦ enrolled endpoint r fleet
  ]

  unfoldable pub admit_all : List Request → Fleet → Fleet
  unfolding admit
  admit_all [] fleet = fleet
  admit_all (r ∷ rs) fleet = admit_all rs (admit r fleet)

-- The fleet that a server knows.
abbrev pub admitted : Bool → Labels → Option Labels
admitted true l = some l
admitted false l = none

unfoldable pub fleet_in : (N : NodeStore) → N.State → Fleet
fleet_in N nodes node = admitted (N.is_registered nodes node) (Quot.mk (labels_of N nodes node))

admitted_sync :
    (env : String) (current_job : Job) (pbs : List Playbook) (known : Bool) (l : Dict String)
    → (if not known then not_registered else job_response (choose_job env current_job pbs l))
      ≡ answer env current_job pbs (admitted known (Quot.mk l))
unfolding job_for
admitted_sync env current_job pbs true l = refl
admitted_sync env current_job pbs false l = refl

pub handle_sync-answer :
    {N : NodeStore} {R : ReportStore} (env : String) (s : Server N R) (node : String)
    → handle_sync env s node ≡ answer env s.current_job s.playbooks (fleet_in N s.nodes node)
unfolding handle_sync fleet_in
handle_sync-answer {N} env s node =
    admitted_sync env s.current_job s.playbooks (N.is_registered s.nodes node)
      (labels_of N s.nodes node)
