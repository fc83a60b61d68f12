-- ===== src/Agent/Execute/Laws.antt =====
-- The status and the output that `ExecutePlaybook` of cmd/agent/main.go reports.
use helvilette.Prelude.{
  String, ◌≡◌, ◌≢◌, ◌⊎◌, inl, inr, true, none, Option-cases, err, Result-cases, Option, [], ◌∷◌,
  arith, eq_iff,
}
use helvilette.Prelude.Dict.{Dict}
use helvilette.FilePath.{◌<>◌}
use helvilette.Types.{Job}
use helvilette.Git.{ensure_repo}
use helvilette.Agent.Execute.Success.{Succeeds, prepare-Succeeds, prepare_of_Succeeds}
use helvilette.Agent.Execute.{
  Machine, content_source, repo_dir, prepare, find_source, run_ansible, as_json, execute_playbook,
}

module _ {W : Type 0} (M : Machine W) where
  -- The status is "Success" exactly when the workspace was made; then the repository was brought to
  -- the version, or a path was given, or the text was written; and then the command on that
  -- playbook, with the variables passed on as a file where there are some, ended without an error.
  -- Else the status is "Failed".
  pub execute_playbook-Succeeds :
      (workspace : String) (job : Job) (w : W)
      → (((execute_playbook M workspace job w).1.0 ≡ "Success") × Succeeds M workspace job w)
        ⊎ (((execute_playbook M workspace job w).1.0 ≡ "Failed") × ¬ Succeeds M workspace job w)
  unfolding execute_playbook
  execute_playbook-Succeeds workspace job w = elim (Result-cases (prepare M workspace job w).1) [
    | inl (output, failed) ↦ inr (
      ground arith,
      λ all. let (source, found, _) = prepare_of_Succeeds M workspace job w all in ground arith,
    )
    | inr (source, found) ↦
        elim (Option-cases
          (run_ansible M job.extra_vars source (prepare M workspace job w).0).1.1) [
            | inl fine ↦ inl (ground arith, prepare-Succeeds M workspace job w source found fine)
            | inr (e, broke) ↦ inr (
              ground arith,
              λ all.
                  let (source', found', fine) = prepare_of_Succeeds M workspace job w all in
                  ground arith,
            )
          ]
  ]

  -- The error of writing the playbook's text into the workspace, if any.
  abbrev pub written : String → Job → W → Option String
  written workspace job w =
      (M.write_file w (content_source workspace job.job_id).playbook_file job.playbook_content).1

  -- The workspace can be made, and the playbook's text, where the job carries only that, be written.
  abbrev pub IsWritable : String → Job → W → Type 0
  IsWritable workspace job w =
      ((M.mkdir_all w workspace).1 ≡ none)
      × ((job.repo_url ≢ "")
          ⊎ (job.playbook_path ≢ "")
          ⊎ (written workspace job (M.mkdir_all w workspace).0 ≡ none))

  abbrev pub MarshalsJson : Type 0
  MarshalsJson = (m : Dict String) → M.json_valid (M.marshal m) ≡ true

  as_json-valid : MarshalsJson → (output : String) → M.json_valid (as_json M output) ≡ true
  as_json-valid marshals output =
      ground
        (arith, marshals (("raw_output", output) ∷ ("error", "Output was not valid JSON") ∷ []))

  find_source-json :
      (workspace : String) (job : Job) (w : W) (output : String)
      → MarshalsJson
      → (job.repo_url ≢ "") ⊎ (job.playbook_path ≢ "") ⊎ (written workspace job w ≡ none)
      → (find_source M workspace job w).1 ≡ err output
      → M.json_valid output ≡ true
  unfolding find_source
  find_source-json workspace job w output marshals usable failed =
      let url = job.repo_url in
      elim (Option-cases (ensure_repo M.git w url (repo_dir workspace url) job.version).1) [
        | inl fine ↦ ground (arith, eq_iff url "", eq_iff job.playbook_path "")
        | inr (e, broke) ↦ ground (
          arith,
          eq_iff url "",
          eq_iff job.playbook_path "",
          marshals (("error", "Failed to pull git repo: " <> M.show e) ∷ []),
        )
      ]

  -- If the workspace can be made and the playbook's text written where that is needed, and the JSON
  -- encoder of maps gives JSON, the output that is reported is JSON, whatever git and Ansible say.
  pub execute_playbook-json :
      (workspace : String) (job : Job) (w : W)
      → MarshalsJson
      → IsWritable workspace job w
      → M.json_valid (execute_playbook M workspace job w).1.1 ≡ true
  unfolding execute_playbook prepare
  execute_playbook-json workspace job w marshals writable =
      elim (Result-cases (prepare M workspace job w).1) [
        | inl (output, failed) ↦ ground (
          arith,
          find_source-json workspace job (M.mkdir_all w workspace).0 output marshals writable.1,
        )
        | inr (source, found) ↦ ground (
          arith,
          as_json-valid marshals
              (run_ansible M job.extra_vars source (prepare M workspace job w).0).1.0,
        )
      ]
