-- ===== src/System/Restart/Tests.antt =====
-- The sample agent, which has run its job, after a restart of Othela.
use helvilette.Prelude.{ℕ}
use helvilette.Agent.Sample.{config}
use helvilette.Agent.Process.{Agent}

abbrev waiting : Agent ℕ
waiting = record { config = config; last_job_id = "job-1" }
