-- ===== src/System/Beside.antt =====
-- A machine beside another state, such as the control plane's.
use helvilette.Prelude.{String, ◌≡◌, refl, Result-cases, inl, inr, arith, [], ◌∷◌}
use helvilette.Prelude.Dict.{Dict}
use helvilette.Types.{Job}
use helvilette.Git.{
  GitEngine, ensure_repo, open_or_clone_repo, clone_repo, open_and_fetch_repo, sync_worktree,
  checkout_version, pull_latest,
}
use helvilette.Agent.Execute.{
  Machine, Source, prepare, find_source, write_vars, run_ansible, execute_playbook, repo_dir,
}

-- The state `s` beside the result of a step.
abbrev pub beside : {S V A : Type 0} → S → V × A → (S × V) × A
beside s (v, a) = ((s, v), a)

module _ {S V : Type 0} where
  abbrev pub git_beside : GitEngine V → GitEngine (S × V)
  git_beside G = record {
    Repo = G.Repo;
    stat = λ w dir. G.stat w.1 dir;
    plain_clone = λ w dir url. beside w.0 (G.plain_clone w.1 dir url);
    plain_open = λ w dir. G.plain_open w.1 dir;
    fetch = λ w repo. beside w.0 (G.fetch w.1 repo);
    worktree = λ w repo. G.worktree w.1 repo;
    resolve_revision = λ w repo version. G.resolve_revision w.1 repo version;
    checkout = λ w repo hash. beside w.0 (G.checkout w.1 repo hash);
    pull = λ w repo. beside w.0 (G.pull w.1 repo);
  }

  abbrev pub machine_beside : Machine V → Machine (S × V)
  machine_beside M = record {
    git = git_beside M.git;
    mkdir_all = λ w dir. beside w.0 (M.mkdir_all w.1 dir);
    write_file = λ w path text. beside w.0 (M.write_file w.1 path text);
    combined_output = λ w command. beside w.0 (M.combined_output w.1 command);
    marshal = M.marshal;
    json_valid = M.json_valid;
    show = M.show;
  }

  module _ (G : GitEngine V) (s : S) where
    open-beside :
        (v : V) (url dir : String)
        → open_or_clone_repo (git_beside G) (s, v) url dir
          ≡ beside s (open_or_clone_repo G v url dir)
    unfolding open_or_clone_repo clone_repo open_and_fetch_repo
    open-beside v url dir = ground arith

    sync-beside :
        (v : V) (repo : G.Repo) (version : String)
        → sync_worktree (git_beside G) (s, v) repo version
          ≡ beside s (sync_worktree G v repo version)
    unfolding sync_worktree checkout_version pull_latest
    sync-beside v repo version = ground arith

    ensure_repo-beside :
        (v : V) (url dir version : String)
        → ensure_repo (git_beside G) (s, v) url dir version
          ≡ beside s (ensure_repo G v url dir version)
    unfolding ensure_repo
    ensure_repo-beside v url dir version = elim (Result-cases (open_or_clone_repo G v url dir).1) [
      | inl (e, broken) ↦ ground (arith, open-beside v url dir)
      | inr (repo, opened) ↦ ground (
        arith,
        open-beside v url dir,
        sync-beside (open_or_clone_repo G v url dir).0 repo version,
      )
    ]

  module _ (M : Machine V) (s : S) where
    find_source-beside :
        (workspace : String) (job : Job) (v : V)
        → find_source (machine_beside M) workspace job (s, v)
          ≡ beside s (find_source M workspace job v)
    unfolding find_source
    find_source-beside workspace job v = ground (
      arith,
      ensure_repo-beside M.git s v job.repo_url (repo_dir workspace job.repo_url) job.version,
    )

    prepare-beside :
        (workspace : String) (job : Job) (v : V)
        → prepare (machine_beside M) workspace job (s, v) ≡ beside s (prepare M workspace job v)
    unfolding prepare
    prepare-beside workspace job v =
        ground (arith, find_source-beside workspace job (M.mkdir_all v workspace).0)

    run_ansible-beside :
        (vars : Dict String) (source : Source) (v : V)
        → run_ansible (machine_beside M) vars source (s, v) ≡ beside s (run_ansible M vars source v)
    unfolding run_ansible write_vars
    run_ansible-beside [] source v = refl
    run_ansible-beside (x ∷ vars) source v = refl

    -- Running a job beside another state gives that state back, with what the run does on the machine.
    pub execute_playbook-beside :
        (workspace : String) (job : Job) (v : V)
        → execute_playbook (machine_beside M) workspace job (s, v)
          ≡ beside s (execute_playbook M workspace job v)
    unfolding execute_playbook
    execute_playbook-beside workspace job v = elim (Result-cases (prepare M workspace job v).1) [
      | inl (output, broken) ↦ ground (arith, prepare-beside workspace job v)
      | inr (source, found) ↦ ground (
        arith,
        prepare-beside workspace job v,
        run_ansible-beside job.extra_vars source (prepare M workspace job v).0,
      )
    ]
