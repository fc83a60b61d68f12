-- ===== src/Agent/Execute/Tests.antt =====
-- Runs of a job on the sample machine, and the laws of `ExecutePlaybook` there.
use helvilette.Prelude.{◌≡◌, ◌≢◌, ◌⊎◌, inl, refl, true, ok, arith, eq_iff}
use helvilette.Types.{no_job}
use helvilette.Git.{
  ensure_repo, open_or_clone_repo, open_and_fetch_repo, sync_worktree, checkout_version,
}
use helvilette.FilePath.{base, join, dir, is_abs}
use helvilette.Agent.Sample.{world, machine, nginx_job}
use helvilette.Agent.Execute.{prepare, find_source, execute_playbook}
use helvilette.Agent.Execute.Success.{Succeeds}
use helvilette.Agent.Execute.Laws.{execute_playbook-Succeeds, execute_playbook-json}

nginx-usable : nginx_job.repo_url ≢ ""
nginx-usable = ground (arith, eq_iff nginx_job.repo_url "")

execute_playbook-Succeeds_example :
    (((execute_playbook machine "/tmp/helvilette" nginx_job (world 1 0)).1.0 ≡ "Success")
      × Succeeds machine "/tmp/helvilette" nginx_job (world 1 0))
    ⊎ (((execute_playbook machine "/tmp/helvilette" nginx_job (world 1 0)).1.0 ≡ "Failed")
        × ¬ Succeeds machine "/tmp/helvilette" nginx_job (world 1 0))
execute_playbook-Succeeds_example =
    execute_playbook-Succeeds machine "/tmp/helvilette" nginx_job (world 1 0)

execute_playbook-json_example :
    machine.json_valid (execute_playbook machine "/tmp/helvilette" nginx_job (world 0 0)).1.1 ≡ true
execute_playbook-json_example =
    execute_playbook-json machine "/tmp/helvilette" nginx_job (world 0 0) (λ m. refl)
      (refl, inl nginx-usable)

-- The three ways to find the playbook.
prepare_tests :
    ((prepare machine "/tmp/helvilette" nginx_job (world 0 0)).1
      ≡ ok (record {
        playbook_file = "/tmp/helvilette/repos/nginx.git/playbook.yml";
        work_dir = "/tmp/helvilette/repos/nginx.git";
      }))
    × ((prepare machine "/tmp/helvilette"
          (record no_job { playbook_path = "/srv/web/playbook.yml" })
          (world 0 0)).1
        ≡ ok (record { playbook_file = "/srv/web/playbook.yml"; work_dir = "/srv/web" }))
    × ((prepare machine "/tmp/helvilette" (record no_job { job_id = "job-2" }) (world 0 0)).1
        ≡ ok (record {
          playbook_file = "/tmp/helvilette/helvilette_job_job-2.yml";
          work_dir = "/tmp/helvilette";
        }))
unfolding prepare find_source join base dir is_abs ensure_repo open_or_clone_repo
    open_and_fetch_repo sync_worktree checkout_version
prepare_tests = (refl, refl, refl)
