-- ===== src/Agent/Client/Laws.antt =====
-- What the response to a poll has to be.
use helvilette.Prelude.{◌≡◌, ◌↔◌, inl, inr, none, some, ok, Result-cases, arith}
use helvilette.FilePath.{◌<>◌}
use helvilette.Types.{Job}
use helvilette.Agent.{AgentConfiguration}
use helvilette.Agent.Client.{HttpResponse, Client, poll}

module _ {W Duration : Type 0} (C : Client W) (config : AgentConfiguration Duration) where
  -- The response to a poll.
  abbrev pub PolledTo : W → HttpResponse → Type 0
  PolledTo w resp = (C.get_url w (config.othela_url <> "/sync/" <> config.node_id)).1 ≡ ok resp

  -- A poll gives a job exactly when the response has status 200 and its body decodes to the job, and
  -- none, with no error, exactly when the response has status 204.
  pub poll_iff :
      (w : W) (job : Job)
      → (((poll C config w).1 ≡ ok (some job)) ↔ (
          (resp : HttpResponse) × PolledTo w resp
          × (resp.code ≡ 200)
          × (C.decode_job resp.body ≡ ok job)))
        × (((poll C config w).1 ≡ ok none)
            ↔ ((resp : HttpResponse) × PolledTo w resp × (resp.code ≡ 204)))
  unfolding poll
  poll_iff w job =
      elim (Result-cases (C.get_url w (config.othela_url <> "/sync/" <> config.node_id)).1) [
        | inl (e, failed) ↦ ground arith
        | inr (resp, got) ↦ elim (Result-cases (C.decode_job resp.body)) [
          | inl (e, bad) ↦ ground arith
          | inr (j, decoded) ↦ ground arith
        ]
      ]
