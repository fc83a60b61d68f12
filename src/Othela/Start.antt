-- ===== src/Othela/Start.antt =====
-- What cmd/othela/main.go starts when its playbook directory cannot be used.
use helvilette.Prelude.{
  String, Bool-cases, ◌≡◌, refl, ◌∙◌, ◌⊎◌, inl, inr, none, err, List, [], arith,
}
use helvilette.Prelude.Dict.{Dict}
use helvilette.Types.{no_job}
use helvilette.Storage.{NodeStore, ReportStore}
use helvilette.Storage.Sqlite.{Engine}
use helvilette.Playbook.Loader.{Disk, Error, new_loader}
use helvilette.Server.{
  Server, Decoder, handle_sync, not_registered, labels_of, job_response, choose_job,
  match_playbooks, fallback_job,
}
use helvilette.Server.Routes.{Mux, Request}
use helvilette.Server.Start.{ServerConfig, new_server_with_config}
use helvilette.Server.Trace.{run}
use helvilette.Server.Trace.Keeps.{run-SameConfig}
use helvilette.Othela.{Flags, server_config}

no_choice : (env : String) (labels : Dict String) → choose_job env no_job [] labels ≡ none
unfolding choose_job match_playbooks fallback_job
no_choice env labels = refl

module _ {N : NodeStore} {R : ReportStore} where
  jobless :
      (env : String) (s : Server N R) (node_id : String)
      → s.current_job ≡ no_job
      → s.playbooks ≡ []
      → (handle_sync env s node_id ≡ not_registered)
        ⊎ (handle_sync env s node_id ≡ job_response none)
  unfolding handle_sync
  jobless env s node_id job pbs = elim (Bool-cases (N.is_registered s.nodes node_id)) [
    | inl known ↦
        let chosen : choose_job env s.current_job s.playbooks (labels_of N s.nodes node_id) ≡ none =
          cc (job, pbs, no_choice env (labels_of N s.nodes node_id)) in
        inr (ground (arith, known, chosen))
    | inr unknown ↦ inl (ground arith)
  ]

no_loader :
    (E : Engine) (disk : Disk) (flags : Flags) (e : Error)
    → new_loader disk flags.playbook_dir ≡ err e
    → (server_config E disk flags).loader ≡ none
unfolding server_config
no_loader E disk flags e h = ground arith

starts_empty :
    (disk : Disk) (env now : String) (cfg : ServerConfig)
    → cfg.loader ≡ none
    → ((new_server_with_config disk env now cfg).current_job ≡ no_job)
      × ((new_server_with_config disk env now cfg).playbooks ≡ [])
unfolding new_server_with_config
starts_empty disk env now cfg h = (ground arith, ground arith)

-- Where the playbook directory cannot be used, the control plane starts all the same, with or without
-- its database; after any requests a poll is answered with 403 or 204, never with a job.
pub unusable_playbooks :
    (E : Engine) (disk : Disk) (flags : Flags) (e : Error) (decoder : Decoder) (mux : Mux)
    (env now env' node_id : String) (rs : List Request)
    → new_loader disk flags.playbook_dir ≡ err e
    → (handle_sync env'
          (run decoder mux (new_server_with_config disk env now (server_config E disk flags)) rs)
          node_id
        ≡ not_registered)
      ⊎ (handle_sync env'
            (run decoder mux (new_server_with_config disk env now (server_config E disk flags)) rs)
            node_id
          ≡ job_response none)
unusable_playbooks E disk flags e decoder mux env now env' node_id rs h =
    let cfg = server_config E disk flags in
    let s = new_server_with_config disk env now cfg in
    let same = run-SameConfig decoder mux s rs in
    let (job, pbs) = starts_empty disk env now cfg (no_loader E disk flags e h) in
    jobless env' (run decoder mux s rs) node_id (same.current_job ∙ job) (same.playbooks ∙ pbs)
