-- ===== src/Server/Sync/Answers.antt =====
-- The answers of `handleSync`, on all of its branches.
use helvilette.Prelude.{
  String, ◌≡◌, ◌↔◌, ◌⊎◌, true, false, Bool, Bool-cases, none, some, Option-cases, inl, inr, List,
  All, arith, eq_iff,
}
use helvilette.Prelude.Dict.{Dict}
use helvilette.Types.{Job}
use helvilette.Storage.{NodeStore, ReportStore}
use helvilette.Playbook.{Playbook}
use helvilette.Server.{
  Server, Response, match_playbooks, fallback_job, has_manifests, choose_job, handle_sync,
  labels_of, json_response, plain_response, empty, job, not_registered,
}
use helvilette.Server.Sync.{
  Passes, IsFirstMatch, IsFallback, fallback_job_iff, match_playbooks-some, match_playbooks-none,
  match_playbooks_of_Passes, match_playbooks_of_IsFirstMatch, Passes-of_HasNoManifest,
}

-- The job for some labels is the one of the first playbook with a matching group and of its first
-- matching group; or, where no playbook has a manifest at all, the fallback job, if there is one.
pub choose_job_iff :
    (env : String) (current_job : Job) (pbs : List Playbook) (labels : Dict String) (j : Job)
    → (choose_job env current_job pbs labels ≡ some j)
      ↔ (IsFirstMatch env labels pbs j ⊎ IsFallback current_job pbs j)
unfolding choose_job
choose_job_iff env current_job pbs labels j = (
  λ h. elim (Option-cases (match_playbooks env labels pbs)) [
    | inl missed ↦ inr ((fallback_job_iff current_job pbs j).0 (ground arith))
    | inr (j', found) ↦ inl (match_playbooks-some env labels pbs j (ground arith))
  ],
  λ h. elim h [
    | inl first ↦ ground (arith, match_playbooks_of_IsFirstMatch env labels pbs j first)
    | inr fallback ↦ ground (
      arith,
      match_playbooks_of_Passes env labels pbs (Passes-of_HasNoManifest labels pbs fallback.2),
      (fallback_job_iff current_job pbs j).1 fallback,
    )
  ],
)

fallback_job-none_iff :
    (current_job : Job) (pbs : List Playbook)
    → (fallback_job current_job pbs ≡ none)
      ↔ ((current_job.job_id ≡ "") ⊎ (has_manifests pbs ≡ true))
unfolding fallback_job
fallback_job-none_iff current_job pbs = ground (arith, eq_iff current_job.job_id "")

-- There is no job exactly when every playbook passes and the fallback job is missing or some
-- playbook has a manifest.
pub choose_job-none_iff :
    (env : String) (current_job : Job) (pbs : List Playbook) (labels : Dict String)
    → (choose_job env current_job pbs labels ≡ none)
      ↔ (All (Passes labels) pbs × ((current_job.job_id ≡ "") ⊎ (has_manifests pbs ≡ true)))
unfolding choose_job
choose_job-none_iff env current_job pbs labels = (
  λ h. elim (Option-cases (match_playbooks env labels pbs)) [
    | inl missed ↦ (
      match_playbooks-none env labels pbs missed,
      (fallback_job-none_iff current_job pbs).0 (ground arith),
    )
    | inr (j', found) ↦ absurd (ground arith)
  ],
  λ (passed, unavailable). ground (
    arith,
    match_playbooks_of_Passes env labels pbs passed,
    (fallback_job-none_iff current_job pbs).1 unavailable,
  ),
)

-- What an agent gets for its poll.
abbrev pub Answer : Bool → String → Job → List Playbook → Dict String → Response → Type 0
Answer registered env current_job pbs labels r =
    ((registered ≡ false) × (r ≡ not_registered))
    ⊎ ((registered ≡ true)
        × All (Passes labels) pbs
        × ((current_job.job_id ≡ "") ⊎ (has_manifests pbs ≡ true))
        × (r ≡ plain_response 204 empty))
    ⊎ ((j : Job) × (registered ≡ true)
        × (IsFirstMatch env labels pbs j ⊎ IsFallback current_job pbs j)
        × (r ≡ json_response 200 (job j)))

-- A poll is answered with 403 if the node is not registered; else with 204 if every playbook passes
-- and there is no fallback; else with 200 and the job of the first match, or the fallback job.
pub handle_sync-Answer :
    {N : NodeStore} {R : ReportStore} (env : String) (s : Server N R) (node_id : String)
    → Answer
        (N.is_registered s.nodes node_id)
        env
        s.current_job
        s.playbooks
        (labels_of N s.nodes node_id)
        (handle_sync env s node_id)
unfolding handle_sync
handle_sync-Answer {N} env s node_id =
    let labels = labels_of N s.nodes node_id in
    let chosen = choose_job env s.current_job s.playbooks labels in
    elim (Bool-cases (N.is_registered s.nodes node_id)) [
      | inr unknown ↦ inl (unknown, ground arith)
      | inl known ↦ elim (Option-cases chosen) [
        | inl idle ↦
            let (passed, unavailable) =
              (choose_job-none_iff env s.current_job s.playbooks labels).0 idle in
            inr (inl (known, passed, unavailable, ground arith))
        | inr (j, found) ↦ inr (
            inr (
              j,
              known,
              (choose_job_iff env s.current_job s.playbooks labels j).0 found,
              ground arith,
            ))
      ]
    ]
