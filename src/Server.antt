-- ===== src/Server.antt =====
-- cmd/othela/server.go: the control plane, over any node and report store. A request arrives with
-- the text of its body; a response is the status, the content type that the handler sets, and the
-- value that is written as the body.
pub mod Routes
pub mod Http
pub mod Start
pub mod Sync
pub mod Stores
pub mod Trace
pub mod Interleaved
pub mod Sample
mod Tests
use helvilette.Prelude.{
  ℕ, String, Bool, true, false, Option, none, some, Result, ok, err, List, [], ◌∷◌, ◌==◌, not,
  if◌then◌else◌,
}
use helvilette.Prelude.Dict.{Dict}
use helvilette.FilePath.{◌<>◌}
use helvilette.Types.{Job, Report}
use helvilette.Storage.{NodeStore, ReportStore}
use helvilette.Manifest.{Manifest, NodeGroup}
use helvilette.Manifest.Matching.{match_node_groups}
use helvilette.Playbook.{Playbook}
use helvilette.Playbook.Loader.{Disk, Loader, Error, scan}

pub record NodeRegistration : Type 0 where
  pub node_id : String
  pub labels : Dict String

pub data Body : Type 0 where
  empty : Body
  text : String → Body
  registration : NodeRegistration → Body
  job : Job → Body
  status : String → Body
  playbooks : List Playbook → Body
  loader_error : Error → Body

pub record Response : Type 0 where
  pub code : ℕ
  pub content_type : String
  pub body : Body

abbrev pub json_response : ℕ → Body → Response
json_response code body = record { code = code; content_type = "application/json"; body = body }

-- `http.Error`
abbrev pub http_error : ℕ → Body → Response
http_error code body = record {
  code = code;
  content_type = "text/plain; charset=utf-8";
  body = body;
}

-- A response with no header set by the handler.
abbrev pub plain_response : ℕ → Body → Response
plain_response code body = record { code = code; content_type = ""; body = body }

-- `json.NewDecoder(r.Body).Decode`, at the two types that are decoded.
pub record Decoder : Type 0 where
  pub registration : String → Result String NodeRegistration
  pub report : String → Result String Report

-- The locks are not modelled: a handler is one step here. `loader` is `none` for nil.
pub record Server (N : NodeStore) (R : ReportStore) : Type 0 where
  pub loader : Option Loader
  pub current_job : Job
  pub playbooks : List Playbook
  pub nodes : N.State
  pub reports : R.State
  pub ready : Bool
  pub debug_mode : Bool

abbrev pub default_repo_url : String
default_repo_url = "http://git-server:3000/helvilette/nginx-collection.git"

-- The default of a missing repository; `env` is the value of HELV_TEST_REPO_URL.
unfoldable pub test_repo_url : String → String
test_repo_url env = if env == "" then default_repo_url else env

abbrev pub manifest_job : String → Playbook → Manifest → NodeGroup → Job
manifest_job env pb m group = record {
  job_id = "job-" <> pb.id <> "-" <> group.name;
  repo_url = if m.spec.repo == "" then test_repo_url env else m.spec.repo;
  version = m.spec.branch;
  playbook_content = "";
  playbook_path = m.spec.playbook;
  extra_vars = group.ansible.extra_vars;
}

-- One round of the first loop of `handleSync`.
unfoldable pub match_job : String → Dict String → Playbook → Option Job
match_job env labels pb = elim pb.manifest [
  | none ↦ none
  | some m ↦ elim (match_node_groups m labels) [
    | [] ↦ none
    | group ∷ _ ↦ some (manifest_job env pb m group)
  ]
]

unfoldable pub match_playbooks : String → Dict String → List Playbook → Option Job
match_playbooks env labels [] = none
match_playbooks env labels (pb ∷ pbs) = elim (match_job env labels pb) [
  | some j ↦ some j
  | none ↦ match_playbooks env labels pbs
]

unfoldable pub has_manifests : List Playbook → Bool
has_manifests [] = false
has_manifests (pb ∷ pbs) = elim pb.manifest [ some m ↦ true | none ↦ has_manifests pbs ]

-- The fallback to `currentJob`, once no manifest has matched.
unfoldable pub fallback_job : Job → List Playbook → Option Job
fallback_job current_job pbs =
    if current_job.job_id == "" then none else if has_manifests pbs then none else some current_job

unfoldable pub choose_job : String → Job → List Playbook → Dict String → Option Job
choose_job env current_job pbs labels = elim (match_playbooks env labels pbs) [
  | some j ↦ some j
  | none ↦ fallback_job current_job pbs
]

-- `labels, _ := GetLabels(...)`: labels that are not found are the nil map.
abbrev pub labels_of : (N : NodeStore) → N.State → String → Dict String
labels_of N nodes node_id = elim (N.get_labels nodes node_id) [ none ↦ [] | some l ↦ l ]

abbrev pub job_response : Option Job → Response
job_response none = plain_response 204 empty
job_response (some j) = json_response 200 (job j)

abbrev pub not_registered : Response
not_registered = http_error 403 (text "node not registered, call POST /api/v1/nodes/register first")

abbrev pub handle_healthz : Response
handle_healthz = json_response 200 (status "ok")

module _ {N : NodeStore} {R : ReportStore} where
  -- The error of `Register` is dropped.
  unfoldable pub handle_register_node : Decoder → Server N R → String → Server N R × Response
  handle_register_node decoder s body = elim (decoder.registration body) [
    | err e ↦ (s, http_error 400 (text e))
    | ok req ↦ (
      record s { nodes = (N.register s.nodes req.node_id req.labels).0 },
      json_response 200 (registration req),
    )
  ]

  unfoldable pub handle_sync : String → Server N R → String → Response
  handle_sync env s node_id =
      if not (N.is_registered s.nodes node_id)
      then not_registered
      else job_response (choose_job env s.current_job s.playbooks (labels_of N s.nodes node_id))

  -- The error of `Save` is logged only.
  unfoldable pub handle_report : Decoder → Server N R → String → Server N R × Response
  handle_report decoder s body = elim (decoder.report body) [
    | err e ↦ (s, http_error 400 (text e))
    | ok report ↦ (
      record s { reports = (R.save s.reports report).0 },
      plain_response 200 (text "Report received"),
    )
  ]

  unfoldable pub handle_playbooks : Disk → Server N R → Server N R × Response
  handle_playbooks disk s = elim s.loader [
    | none ↦ (s, http_error 503 (text "Playbook loader not configured"))
    | some l ↦
        let (l', result) = scan disk l in
        elim result [
          | err e ↦ (record s { loader = some l' }, http_error 500 (loader_error e))
          | ok pbs ↦ (record s { loader = some l' }, json_response 200 (playbooks pbs))
        ]
  ]

  unfoldable pub handle_readyz : Server N R → Response
  handle_readyz s =
      if not s.ready
      then json_response 503 (status "not_ready")
      else json_response 200 (status "ok")

  unfoldable pub set_current_job : Server N R → Job → Server N R
  set_current_job s j = record s { current_job = j }

  unfoldable pub set_ready : Server N R → Bool → Server N R
  set_ready s ready = record s { ready = ready }

  unfoldable pub set_debug : Server N R → Bool → Server N R
  set_debug s debug = record s { debug_mode = debug }

  -- An error of `List` is dropped, with a nil slice.
  unfoldable pub get_reports : Server N R → List Report
  get_reports s = elim (R.list s.reports) [ err e ↦ [] | ok reports ↦ reports ]
