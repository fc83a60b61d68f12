-- ===== src/Agent/Execute/Success.antt =====
-- When a run by `ExecutePlaybook` of cmd/agent/main.go is a success, in the calls it makes.
use helvilette.Prelude.{
  String, Bool-cases, ◌≡◌, ◌≢◌, ◌⊎◌, refl, inl, inr, true, false, none, Option-cases, ok, List, [],
  ◌∷◌, ◌++◌, arith, eq_iff, ◌==◌,
}
use helvilette.Prelude.Dict.{Dict}
use helvilette.FilePath.{◌<>◌, is_abs, join, base, dir}
use helvilette.Types.{Job}
use helvilette.Git.{ensure_repo}
use helvilette.Agent.Execute.{
  Machine, Source, repo_source, content_source, from_repo, from_content, prepare, find_source,
  write_vars, run_ansible,
}

-- The repositories are kept in a directory of the workspace, under the last part of their URL.
abbrev clone_of : String → String → String
clone_of workspace url = join (join (workspace ∷ "repos" ∷ []) ∷ base url ∷ [])

-- The playbook of a repository: the job's path in it, or "playbook.yml".
abbrev IsPlaybookOf : String → String → String → Type 0
IsPlaybookOf root path file =
    ((path ≢ "") × (is_abs path ≡ false) × (file ≡ join (root ∷ path ∷ [])))
    ⊎ (((path ≡ "") ⊎ (is_abs path ≡ true)) × (file ≡ join (root ∷ "playbook.yml" ∷ [])))

abbrev vars_of : String → String
vars_of at = join (at ∷ ".helvilette_extra_vars.json" ∷ [])

module _ {W : Type 0} (M : Machine W) where
  -- The playbook is there, in `file`, to be run in the directory `at`: the repository was brought to
  -- the version, or a path was given, or the text was written into the workspace.
  abbrev pub Found : String → Job → W → String → String → W → Type 0
  Found workspace job w file at w' =
      ((job.repo_url ≢ "")
        × (at ≡ clone_of workspace job.repo_url)
        × (ensure_repo M.git w job.repo_url at job.version ≡ (w', none))
        × IsPlaybookOf at job.playbook_path file)
      ⊎ ((job.repo_url ≡ "")
          × (job.playbook_path ≢ "")
          × (file ≡ job.playbook_path)
          × (at ≡ dir job.playbook_path)
          × (w' ≡ w))
      ⊎ ((job.repo_url ≡ "")
          × (job.playbook_path ≡ "")
          × (file ≡ join (workspace ∷ ("helvilette_job_" <> job.job_id <> ".yml") ∷ []))
          × (at ≡ workspace)
          × (M.write_file w file job.playbook_content ≡ (w', none)))

  -- The variables of the job are passed on as a file, whether or not it could be written.
  abbrev pub PassesVars : Dict String → String → W → List String → W → Type 0
  PassesVars vars at w extra w' =
      ((vars ≡ []) × (extra ≡ []) × (w' ≡ w))
      ⊎ ((vars ≢ [])
          × (extra ≡ "-e" ∷ ("@" <> vars_of at) ∷ [])
          × (w' ≡ (M.write_file w (vars_of at) (M.marshal vars)).0))

  -- The command on the playbook ends without an error.
  abbrev pub RunsFine : String → String → List String → W → Type 0
  RunsFine file at extra w =
      (M.combined_output w (record {
        dir = at;
        env = "ANSIBLE_STDOUT_CALLBACK=json" ∷ [];
        args = ("ansible-playbook" ∷ "-i" ∷ "localhost," ∷ "-c" ∷ "local" ∷ file ∷ []) ++ extra;
      })).1.1
      ≡ none

  -- The workspace was made, the playbook found, and Ansible ended without an error.
  abbrev pub Succeeds : String → Job → W → Type 0
  Succeeds workspace job w =
      (w1 : W) × (w2 : W) × (w3 : W) × (file : String) × (at : String) × (extra : List String)
      × (M.mkdir_all w workspace ≡ (w1, none))
      × Found workspace job w1 file at w2
      × PassesVars job.extra_vars at w2 extra w3
      × RunsFine file at extra w3

  repo_source-IsPlaybookOf :
      (root path : String) → IsPlaybookOf root path (repo_source root path).playbook_file
  repo_source-IsPlaybookOf root path = ground (arith, eq_iff path "")

  from_repo-ok :
      (workspace : String) (job : Job) (w : W) (source : Source)
      → (from_repo M workspace job w).1 ≡ ok source
      → (source ≡ repo_source (clone_of workspace job.repo_url) job.playbook_path)
        × (ensure_repo M.git w job.repo_url (clone_of workspace job.repo_url) job.version
            ≡ ((from_repo M workspace job w).0, none))
  unfolding from_repo
  from_repo-ok workspace job w source found =
      elim (Option-cases
        (ensure_repo M.git w job.repo_url (clone_of workspace job.repo_url) job.version).1) [
          | inl fine ↦ (ground arith, ground arith)
          | inr (e, broke) ↦ absurd (ground arith)
        ]

  from_content-ok :
      (workspace : String) (job : Job) (w : W) (source : Source)
      → (from_content M workspace job w).1 ≡ ok source
      → (source ≡ content_source workspace job.job_id)
        × (M.write_file w (content_source workspace job.job_id).playbook_file job.playbook_content
            ≡ ((from_content M workspace job w).0, none))
  unfolding from_content
  from_content-ok workspace job w source found =
      elim (Option-cases
        (M.write_file w (content_source workspace job.job_id).playbook_file
          job.playbook_content).1) [
            | inl fine ↦ (ground arith, ground arith)
            | inr (e, broke) ↦ absurd (ground arith)
          ]

  find_source-Found :
      (workspace : String) (job : Job) (w : W) (source : Source)
      → (find_source M workspace job w).1 ≡ ok source
      → Found workspace job w source.playbook_file source.work_dir (find_source M workspace job w).0
  unfolding find_source
  find_source-Found workspace job w source found =
      let url = job.repo_url in
      let path = job.playbook_path in
      elim (Bool-cases (url == "")) [
        | inr given ↦
            let (same, called) = from_repo-ok workspace job w source (ground (arith)) in
            inl (
              ground (arith, eq_iff url ""),
              ground (arith, same),
              ground (arith, same, called),
              ground (arith, same, repo_source-IsPlaybookOf (clone_of workspace url) path),
            )
        | inl unset ↦ elim (Bool-cases (path == "")) [
          | inr given ↦ inr (
              inl (
                ground (arith, eq_iff url ""),
                ground (arith, eq_iff path ""),
                ground arith,
                ground arith,
                ground arith,
              ))
          | inl bare ↦
              let (same, called) = from_content-ok workspace job w source (ground arith) in
              inr (
                inr (
                  ground (arith, eq_iff url ""),
                  ground (arith, eq_iff path ""),
                  ground (arith, same),
                  ground (arith, same),
                  ground (arith, same, called),
                ))
        ]
      ]

  find_source_of_Found :
      (workspace : String) (job : Job) (w : W) (file at : String) (w' : W)
      → Found workspace job w file at w'
      → find_source M workspace job w ≡ (w', ok (record { playbook_file = file; work_dir = at }))
  unfolding find_source
  find_source_of_Found workspace job w file at w' found =
      ground (arith, found, eq_iff job.repo_url "", eq_iff job.playbook_path "")

  write_vars-PassesVars :
      (vars : Dict String) (source : Source) (w : W)
      → PassesVars vars source.work_dir w
          (write_vars M vars source w).1
          (write_vars M vars source w).0
  unfolding write_vars
  write_vars-PassesVars [] source w = inl (refl, refl, refl)
  write_vars-PassesVars (v ∷ vars) source w = inr (λ same. absurd (cc), refl, refl)

  write_vars_of_PassesVars :
      (vars : Dict String) (source : Source) (w : W) (extra : List String) (w' : W)
      → PassesVars vars source.work_dir w extra w'
      → write_vars M vars source w ≡ (w', extra)
  unfolding write_vars
  write_vars_of_PassesVars [] source w extra w' passes = ground (arith, passes)
  write_vars_of_PassesVars (v ∷ vars) source w extra w' passes = ground (arith, passes)

  -- Nothing more is needed, once the playbook was found and the command has ended well.
  pub prepare-Succeeds :
      (workspace : String) (job : Job) (w : W) (source : Source)
      → (prepare M workspace job w).1 ≡ ok source
      → (run_ansible M job.extra_vars source (prepare M workspace job w).0).1.1 ≡ none
      → Succeeds workspace job w
  unfolding prepare run_ansible
  prepare-Succeeds workspace job w source found fine =
      elim (Option-cases (M.mkdir_all w workspace).1) [
        | inr (e, broke) ↦ absurd (ground arith)
        | inl made ↦
            let w1 = (M.mkdir_all w workspace).0 in
            let w2 = (find_source M workspace job w1).0 in
            let (w3, extra) = write_vars M job.extra_vars source w2 in
            (
              w1,
              w2,
              w3,
              source.playbook_file,
              source.work_dir,
              extra,
              ground arith,
              find_source-Found workspace job w1 source (ground arith),
              write_vars-PassesVars job.extra_vars source w2,
              ground arith,
            )
      ]

  pub prepare_of_Succeeds :
      (workspace : String) (job : Job) (w : W)
      → Succeeds workspace job w
      → (source : Source) × ((prepare M workspace job w).1 ≡ ok source)
        × ((run_ansible M job.extra_vars source (prepare M workspace job w).0).1.1 ≡ none)
  unfolding prepare run_ansible
  prepare_of_Succeeds workspace job w (w1, w2, w3, file, at, extra, made, found, passes, fine) =
      let source : Source = record { playbook_file = file; work_dir = at } in
      let looked = find_source_of_Found workspace job w1 file at w2 found in
      let wrote = write_vars_of_PassesVars job.extra_vars source w2 extra w3 passes in
      (source, ground (arith, made, looked), ground (arith, made, looked, wrote, fine))
