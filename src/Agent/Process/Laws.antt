-- ===== src/Agent/Process/Laws.antt =====
-- How often the loop of cmd/agent/main.go runs a job that Othela answers with again and again.
use helvilette.Prelude.{
  ℕ, zero, suc, ◌+◌, ◌<◌, ◌≡◌, ◌≢◌, refl, none, some, ok, err, Result-cases, Option-cases, inl, inr,
  arith, eq_iff,
}
use native.Mathlib.Nat.{zero-add, suc-add}
use helvilette.Types.{Job}
use helvilette.Agent.Execute.{Machine}
use helvilette.Agent.Client.{Client, poll, send_report}
use helvilette.Agent.Process.{Agent, executed, report_of, recorded, process_job, tick, ticks}

process_job-none :
    {W Duration : Type 0} (M : Machine W) (C : Client W) (a : Agent Duration) (w : W)
    → (process_job M C a none w).0 ≡ (a, w)
unfolding process_job
process_job-none M C a w = refl

module _ {W Duration : Type 0} (M : Machine W) (C : Client W) (a : Agent Duration) (job : Job) where
  -- The world after one run of the job and its report.
  abbrev pub run_and_report : W → W
  run_and_report w =
      let (w', result) = executed M C a job w in
      (send_report C a.config (report_of M C a job result) w').0

  -- The world after some polls that lead to no run.
  abbrev pub polled : ℕ → W → W
  polled zero w = w
  polled (suc n) w = polled n (poll C a.config w).0

  abbrev pub IsGiven : W → Type 0
  IsGiven w = (poll C a.config w).1 ≡ ok (some job)

  -- The next poll gives the job, and its run succeeds.
  abbrev pub Succeeds : W → Type 0
  Succeeds w = IsGiven w × ((executed M C a job (polled 1 w)).1.0 ≡ "Success")

  -- The next poll gives this job, none, or an error.
  abbrev pub GivesOnly : W → Type 0
  GivesOnly w = (j : Job) → (poll C a.config w).1 ≡ ok (some j) → j ≡ job

  -- The world after some ticks each of which runs the job where the poll gives one.
  abbrev pub retried : ℕ → W → W
  retried zero w = w
  retried (suc n) w = retried n (elim (poll C a.config w).1 [
    | err e ↦ polled 1 w
    | ok given ↦ elim given [ none ↦ polled 1 w | some j ↦ run_and_report (polled 1 w) ]
  ])

  -- The agent once the job has succeeded.
  abbrev pub done : Agent Duration
  done = record a { last_job_id = job.job_id }

  process_job-run :
      (w : W)
      → job.job_id ≢ a.last_job_id
      → (process_job M C a (some job) w).0
        ≡ (recorded M C a job (executed M C a job w).1.0, run_and_report w)
  unfolding process_job
  process_job-run w fresh = ground (arith, eq_iff job.job_id a.last_job_id)

  tick-success :
      (w : W)
      → job.job_id ≢ a.last_job_id
      → Succeeds w
      → tick M C (a, w) ≡ (done, run_and_report (polled 1 w))
  unfolding tick
  tick-success w fresh (given, fine) = ground (
    arith,
    process_job-run (polled 1 w) fresh,
    eq_iff (executed M C a job (polled 1 w)).1.0 "Success",
  )

  tick-failure :
      (w : W)
      → job.job_id ≢ a.last_job_id
      → GivesOnly w
      → ¬ Succeeds w
      → tick M C (a, w) ≡ (a, retried 1 w)
  unfolding tick
  tick-failure w fresh only fails = elim (Result-cases (poll C a.config w).1) [
    | inl (e, broken) ↦ ground arith
    | inr (given, got) ↦ elim (Option-cases given) [
      | inl nothing ↦ ground (arith, process_job-none M C a (polled 1 w))
      | inr (j, some_job) ↦
          let same : j ≡ job = only j (ground arith) in
          ground (
            arith,
            process_job-run (polled 1 w) fresh,
            eq_iff (executed M C a job (polled 1 w)).1.0 "Success",
          )
    ]
  ]

  process_job-done : (w : W) → (process_job M C done (some job) w).0 ≡ (done, w)
  unfolding process_job
  process_job-done w = ground (arith, eq_iff job.job_id job.job_id)

  -- A tick after the success only polls.
  tick-done : (w : W) → GivesOnly w → tick M C (done, w) ≡ (done, polled 1 w)
  unfolding tick
  tick-done w only = elim (Result-cases (poll C a.config w).1) [
    | inl (e, broken) ↦ ground arith
    | inr (given, got) ↦ elim (Option-cases given) [
      | inl nothing ↦ ground (arith, process_job-none M C done (polled 1 w))
      | inr (j, some_job) ↦
          let same : j ≡ job = only j (ground arith) in
          ground (arith, process_job-done (polled 1 w))
    ]
  ]

  ticks-done :
      (n : ℕ) (w : W)
      → ((i : ℕ) → i < n → GivesOnly (polled i w))
      → ticks M C n (done, w) ≡ (done, polled n w)
  unfolding ticks
  ticks-done zero w only = refl
  ticks-done (suc n) w only =
      rw (tick-done w (only 0 (omega arith)))
        (ticks-done n (polled 1 w) (λ i h. only (suc i) (omega arith)))

  -- The next `n` polls give this job or none, and no run of it succeeds.
  abbrev pub Fails : ℕ → W → Type 0
  Fails n w = (i : ℕ) → i < n → GivesOnly (retried i w) × ¬ Succeeds (retried i w)

  -- While no run succeeds, a job that is new to the agent stays new: every tick whose poll gives it
  -- runs it once more and reports the run.
  pub ticks-failing :
      (n : ℕ) (w : W)
      → job.job_id ≢ a.last_job_id
      → Fails n w
      → ticks M C n (a, w) ≡ (a, retried n w)
  unfolding ticks
  ticks-failing zero w fresh fails = refl
  ticks-failing (suc n) w fresh fails =
      rw (tick-failure w fresh (fails 0 (omega arith)).0 (fails 0 (omega arith)).1)
        (ticks-failing n (retried 1 w) fresh (λ i h. fails (suc i) (omega arith)))

  -- The world after the first success, the `n` ticks before it included.
  abbrev pub succeeded : ℕ → W → W
  succeeded n w = run_and_report (polled 1 (retried n w))

  -- A job that is new to the agent is run at every poll that gives it until a run succeeds; from then
  -- on, while the polls give it or none, it is not run again.
  pub ticks-success :
      (n m : ℕ) (w : W)
      → job.job_id ≢ a.last_job_id
      → Fails n w
      → Succeeds (retried n w)
      → ((i : ℕ) → i < m → GivesOnly (polled i (succeeded n w)))
      → ticks M C (n + suc m) (a, w) ≡ (done, polled m (succeeded n w))
  unfolding ticks
  ticks-success zero m w fresh fails succeeds only =
      rw (zero-add, tick-success w fresh succeeds) (ticks-done m (succeeded 0 w) only)
  ticks-success (suc n) m w fresh fails succeeds only =
      rw (suc-add, ticks, tick-failure w fresh (fails 0 (omega arith)).0 (fails 0 (omega arith)).1)
        (ticks-success n m (retried 1 w) fresh (λ i h. fails (suc i) (omega arith)) succeeds only)
