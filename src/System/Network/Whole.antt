-- ===== src/System/Network/Whole.antt =====
-- Whole runs of cmd/agent/main.go, from the registration on, over the network of this part.
use mathlib.Core.Path.{subst}
use mathlib.Core.List.{append_assoc, map-append}
use helvilette.Prelude.{
  ℕ, suc, ◌+◌, ◌<◌, [], ◌≡◌, ◌≢◌, refl, sym, ap, ◌∙◌, some, none, ok, List, ◌++◌, map, length, All,
  arith,
}
use helvilette.Prelude.Subsequence.{IsSubsequence}
use helvilette.Types.{Job, Report}
use helvilette.Storage.{NodeStore, ReportStore, IsNodeStore, IsReportStore}
use helvilette.Server.{Server, choose_job}
use helvilette.Server.Trace.Reports.{AcceptsReports}
use helvilette.Agent.{AgentConfiguration}
use helvilette.Agent.Execute.{Machine}
use helvilette.Agent.Execute.Laws.{MarshalsJson, IsWritable}
use helvilette.Agent.Process.{
  Agent, Progress, polling, ticking, new_agent, ticks, loop-ticking, run,
}
use helvilette.System.{Wire, IsWired, arriving}
use helvilette.System.Beside.{machine_beside}
use helvilette.System.Steps.{agent, run_reports, run_status, after_runs, IsRunReport}
use helvilette.System.Network.{Event, Net, IsForeignEvent, lossy}
use helvilette.System.Network.Grown.{from_node, from_node-append}
use helvilette.System.Network.Registration.{undisturbed, register_node-Joined}
use helvilette.System.Network.Delivery.{Lists, ticks-Settled}

module _ {V Duration : Type 0} (M : Machine V) (config : AgentConfiguration Duration) (j : Job)
    {N : NodeStore} {R : ReportStore} {stored : Report → Report} (lawful : IsNodeStore N)
    (kept : IsReportStore R stored) (accepts : AcceptsReports R) (wire : Wire)
    (wired : IsWired wire config M.json_valid j (IsRunReport M config j))
    (marshals : MarshalsJson M) (writable : (v : V) → IsWritable M config.workspace_dir j v) where
  -- What Othela lists of the node besides what it listed before.
  abbrev pub Delivered : List Report → (List Report → Type 0) → Server N R → Type 0
  Delivered before Mine s =
      Lists M config j lawful kept accepts wire wired marshals writable before Mine s

  -- A new agent with `m` rounds of registration and `n` ticks, on a node whose first `k` runs fail.
  abbrev pub whole :
      ℕ → ℕ → Server N R → List Event → V → (Agent Duration × (Net N R × V)) × Progress
  whole m n s events v =
      run (machine_beside M) (lossy wire) (undisturbed m) (ticking n)
        (new_agent config, ((s, events), v))

  Lists-later :
      (before new : List Report) (Mine : List Report → Type 0) (s : Server N R)
      → from_node config.node_id new ≡ []
      → Delivered (before ++ map stored new) Mine s
      → Delivered before Mine s
  Lists-later before new Mine s others (more, listed, own) = (
    new ++ more,
    listed
        ∙ ap ok (
            append_assoc before (map stored new) (map stored more)
            ∙ ap (λ rs. before ++ rs) (sym (map-append stored new more))),
    subst Mine
        (sym (
          from_node-append config.node_id new more
          ∙ ap (λ rs. rs ++ from_node config.node_id more) others))
        own,
  )

  -- A new agent starts whose node Othela has a job for. The network loses requests and responses,
  -- and other nodes send requests in between. With more uncancelled rounds of registration than
  -- such events, and more ticks than events and failing runs, the agent polls, has run the job
  -- until it succeeded and no more, and has it as the last job that succeeded; and the reports of
  -- the node that Othela lists anew are some of these runs' reports, in their order and none twice.
  -- Task logs arrive compact, as encoding/json makes them. The stores are lawful, and accept the
  -- node's registrations and every report; the codecs agree on the node's messages; the JSON
  -- encoder of maps gives JSON; and the workspace can be written, whatever the state of the node.
  pub run-Delivered :
      (welcomes : (t : N.State) → (N.register t config.node_id config.labels).1 ≡ none) (m n k : ℕ)
      (s : Server N R) (events : List Event) (v : V) (before : List Report)
      → j.job_id ≢ ""
      → All (IsForeignEvent wire config.node_id) events
      → choose_job wire.env s.current_job s.playbooks config.labels ≡ some j
      → ((i : ℕ) → i < k → run_status M config j i v ≢ "Success")
      → run_status M config j k v ≡ "Success"
      → length events < m
      → length events + k < n
      → R.list s.reports ≡ ok before
      → ((whole m n s events v).1 ≡ polling)
        × ((whole m n s events v).0.0 ≡ agent M config j j.job_id)
        × ((whole m n s events v).0.1.1 ≡ after_runs M config j (suc k) v)
        × Delivered before
            (λ mine. IsSubsequence mine (map (arriving wire) (run_reports M config j (suc k) v)))
            (whole m n s events v).0.1.0.0
  unfolding run
  run-Delivered welcomes m n k s events v before real foreign chosen bad fine rounds enough listed =
      let joined =
        register_node-Joined wire config M.json_valid j (IsRunReport M config j) wired lawful kept
          accepts welcomes m s events v foreign chosen rounds in
      let (new, base, others) = joined.grown.listed before listed in
      let (last, node, lists) =
        ticks-Settled M config j lawful kept accepts wire wired marshals writable n k ""
          joined.later joined.rest v (before ++ map stored new) real joined.foreign joined.offers
          bad fine (omega (arith, joined.shorter)) base in
      let end =
        ticks (machine_beside M) (lossy wire) n
          (agent M config j "", ((joined.later, joined.rest), v)) in
      rw (joined.same, loop-ticking)
        (
          refl,
          last,
          node,
          Lists-later before new
              (λ mine. IsSubsequence mine (map (arriving wire) (run_reports M config j (suc k) v)))
              end.1.0.0 others lists,
        )
