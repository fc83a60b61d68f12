-- ===== src/Agent/Process/Tests.antt =====
-- Runs of the loop on the sample machine.
use helvilette.Prelude.{ℕ, String, zero, suc, ◌+◌, ◌≡◌, ◌≢◌, refl, false, [], ◌∷◌, arith, eq_iff}
use helvilette.Git.{
  ensure_repo, open_or_clone_repo, open_and_fetch_repo, sync_worktree, checkout_version,
}
use helvilette.Agent.Sample.{World, world, machine, client, config, nginx_job}
use helvilette.Agent.Client.{poll, send_report, register_node}
use helvilette.Agent.Execute.{execute_playbook, prepare, find_source, run_ansible, write_vars}
use helvilette.Agent.Process.{
  Agent, new_agent, process_job, tick, ticks, run, loop, ticked, cancelled, ended,
}
use helvilette.Agent.Process.Laws.{
  Fails, GivesOnly, retried, done, succeeded, Succeeds, polled, ticks-failing, ticks-success,
}

abbrev agent : Agent ℕ
agent = new_agent config

-- What a run on the sample machine computes with.
run_sample : ℕ → World → (Agent ℕ × World)
unfolding ticks tick poll process_job execute_playbook prepare find_source run_ansible write_vars
    send_report ensure_repo open_or_clone_repo open_and_fetch_repo sync_worktree checkout_version
run_sample n w = ticks machine client n (agent, w)

-- The registration takes two posts, the job's first run fails, its second one succeeds, and the
-- third tick runs nothing.
run_test :
    run machine client
      ((false, false) ∷ (false, false) ∷ [])
      (ticked ∷ ticked ∷ ticked ∷ cancelled ∷ ticked ∷ [])
      (agent, world 0 0)
    ≡ ((done machine client agent nginx_job, world 2 4), ended)
unfolding run loop register_node run_sample
run_test = refl

only_nginx : (w : World) → GivesOnly machine client agent nginx_job w
unfolding poll
only_nginx w j h = ground arith

nginx-fresh : nginx_job.job_id ≢ agent.last_job_id
nginx-fresh = ground (arith, eq_iff nginx_job.job_id agent.last_job_id)

first-Fails : Fails machine client agent nginx_job 1 (world 0 1)
unfolding run_sample
first-Fails zero _ = (only_nginx (world 0 1), failed)
  where
    failed : ¬ Succeeds machine client agent nginx_job (world 0 1)
    failed h =
        let e : ◌≡◌ {A = String} "Failed" "Success" = h.1 in
        ground (arith, eq_iff "Failed" "Success")
first-Fails (suc i) lt = absurd (omega arith)

second-Succeeds :
    Succeeds machine client agent nginx_job (retried machine client agent nginx_job 1 (world 0 1))
unfolding run_sample
second-Succeeds = (refl, refl)

ticks-failing_example :
    ticks machine client 1 (agent, world 0 1)
    ≡ (agent, retried machine client agent nginx_job 1 (world 0 1))
ticks-failing_example =
    ticks-failing machine client agent nginx_job 1 (world 0 1) nginx-fresh first-Fails

ticks-success_example : ticks machine client (1 + 3) (agent, world 0 1) ≡ (
  done machine client agent nginx_job,
  polled machine client agent nginx_job 2 (succeeded machine client agent nginx_job 1 (world 0 1)),
)
ticks-success_example =
    ticks-success machine client agent nginx_job 1 2 (world 0 1) nginx-fresh first-Fails
      second-Succeeds
      (λ i _. only_nginx (
        polled machine client agent nginx_job i
          (succeeded machine client agent nginx_job 1 (world 0 1))))
