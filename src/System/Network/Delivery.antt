-- ===== src/System/Network/Delivery.antt =====
-- Whole runs of the loop of cmd/agent/main.go over the network of this part.
use mathlib.Core.Path.{subst}
use helvilette.Prelude.{
  ℕ, zero, suc, ◌+◌, ◌<◌, String, ◌≡◌, ◌≢◌, refl, sym, ap, ◌∙◌, ◌⊎◌, inl, inr, ok, List, [], ◌∷◌,
  ◌++◌, map, length, All, arith, eq_iff, ◌==◌, if◌then◌else◌,
}
use helvilette.Prelude.Subsequence.{
  IsSubsequence, IsSubsequence-nil, IsSubsequence-append, IsSubsequence-eq_nil,
}
use helvilette.Types.{Job, Report}
use helvilette.Storage.{NodeStore, ReportStore, IsNodeStore, IsReportStore}
use helvilette.Server.{Server}
use helvilette.Server.Trace.Reports.{AcceptsReports}
use helvilette.Agent.{AgentConfiguration}
use helvilette.Agent.Execute.{Machine}
use helvilette.Agent.Execute.Laws.{MarshalsJson, IsWritable}
use helvilette.Agent.Process.{ticks}
use helvilette.System.{Wire, IsWired, arriving}
use helvilette.System.Beside.{machine_beside}
use helvilette.System.Steps.{agent, run_once, run_reports, run_status, after_runs, IsRunReport}
use helvilette.System.Network.{Event, delivered, request_lost, IsForeignEvent, lossy}
use helvilette.System.Network.Grown.{Offers, Grown, Grown-refl, Grown-trans, from_node}
use helvilette.System.Network.Ticks.{State, at, Idle, Ran, step-done, step-fresh, step-lost}

module _ {V Duration : Type 0} (M : Machine V) (config : AgentConfiguration Duration) (j : Job)
    {N : NodeStore} {R : ReportStore} {stored : Report → Report} (lawful : IsNodeStore N)
    (kept : IsReportStore R stored) (accepts : AcceptsReports R) (wire : Wire)
    (wired : IsWired wire config M.json_valid j (IsRunReport M config j))
    (marshals : MarshalsJson M) (writable : (v : V) → IsWritable M config.workspace_dir j v) where
  abbrev St : Type 0
  St = State M config j lawful kept accepts wire wired marshals writable

  abbrev steps : ℕ → St → St
  steps n st = ticks (machine_beside M) (lossy wire) n st

  abbrev at' : String → Server N R → List Event → V → St
  at' last s events v =
      at M config j lawful kept accepts wire wired marshals writable last s events v

  abbrev tick_of :
      (last : String) (s : Server N R) (events : List Event) (v : V)
      → j.job_id ≢ last
      → All (IsForeignEvent wire config.node_id) events
      → Offers wire config.node_id j s
      → (Ran M config j lawful kept accepts wire wired marshals writable last s events v)
        ⊎ ((idle : Idle M config j lawful kept accepts wire wired marshals writable last s events v)
            × (length idle.rest < length events))
  tick_of = step-fresh M config j lawful kept accepts wire wired marshals writable

  -- From a server on, the node ends in a state, and its reports that have arrived are in order
  -- among some reports.
  pub record Ends (s : Server N R) (reports : List Report) (last : String) (v : V) (st : St)
      : Type 0 where
    pub server : Server N R
    pub events : List Event
    pub mine : List Report
    pub few : IsSubsequence mine reports
    pub grown : Grown stored config.node_id (Offers wire config.node_id j) s server mine
    pub same : st ≡ (agent M config j last, ((server, events), v))

  Ends-later :
      {s t : Server N R} {mine few reports : List Report} {last : String} {v : V} {st st' : St}
      → Grown stored config.node_id (Offers wire config.node_id j) s t mine
      → IsSubsequence mine few
      → st ≡ st'
      → Ends t reports last v st'
      → Ends s (few ++ reports) last v st
  Ends-later g h e r = record {
    server = r.server;
    events = r.events;
    mine = _;
    few = IsSubsequence-append h r.few;
    grown = Grown-trans stored config.node_id (Offers wire config.node_id j) g r.grown;
    same = e ∙ r.same;
  }

  steps-done :
      (n : ℕ) (s : Server N R) (events : List Event) (v : V)
      → All (IsForeignEvent wire config.node_id) events
      → Offers wire config.node_id j s
      → Ends s [] j.job_id v (steps n (agent M config j j.job_id, ((s, events), v)))
  unfolding ticks
  steps-done zero s events v foreign o = record {
    server = s;
    events = events;
    mine = [];
    few = IsSubsequence-nil [];
    grown = Grown-refl stored config.node_id (Offers wire config.node_id j) s;
    same = refl;
  }
  steps-done (suc n) s events v foreign o =
      let i =
        step-done M config j lawful kept accepts wire wired marshals writable s events v foreign
          o in
      Ends-later i.grown (IsSubsequence-nil []) (ap (steps n) i.same)
        (steps-done n i.later i.rest v i.foreign (i.grown.kept o))

  run_ends :
      (status last : String) (s : Server N R) (events : List Event) (v : V)
      → status ≡ "Success"
      → at' (if status == "Success" then j.job_id else last) s events v ≡ at' j.job_id s events v
  run_ends status last s events v fine =
      ap (λ l. at' l s events v) (ground (arith, eq_iff status "Success"))

  run_fails :
      (status last : String) (s : Server N R) (events : List Event) (v : V)
      → status ≢ "Success"
      → at' (if status == "Success" then j.job_id else last) s events v ≡ at' last s events v
  run_fails status last s events v bad =
      ap (λ l. at' l s events v) (ground (arith, eq_iff status "Success"))

  steps-Ends :
      (n k : ℕ) (last : String) (s : Server N R) (events : List Event) (v : V)
      → j.job_id ≢ last
      → All (IsForeignEvent wire config.node_id) events
      → Offers wire config.node_id j s
      → ((i : ℕ) → i < k → run_status M config j i v ≢ "Success")
      → run_status M config j k v ≡ "Success"
      → length events + k < n
      → Ends s
          (map (arriving wire) (run_reports M config j (suc k) v))
          j.job_id
          (after_runs M config j (suc k) v)
          (steps n (at' last s events v))
  unfolding ticks
  steps-Ends zero k last s events v fresh foreign o bad fine enough = absurd (omega arith)
  steps-Ends (suc n) zero last s events v fresh foreign o bad fine enough =
      elim (tick_of last s events v fresh foreign o) [
        | inr (idle, lt) ↦ Ends-later idle.grown (IsSubsequence-nil []) (ap (steps n) idle.same) (
            steps-Ends n zero last idle.later idle.rest v fresh idle.foreign (idle.grown.kept o) bad
              fine (omega arith))
        | inl ran ↦
            let v' = (run_once M config j v).0 in
            let same =
              ran.same ∙ run_ends (run_status M config j 0 v) last ran.later ran.rest v' fine in
            Ends-later ran.grown ran.few (ap (steps n) same)
              (steps-done n ran.later ran.rest v' ran.foreign (ran.grown.kept o))
      ]
  steps-Ends (suc n) (suc k) last s events v fresh foreign o bad fine enough =
      elim (tick_of last s events v fresh foreign o) [
        | inr (idle, lt) ↦ Ends-later idle.grown (IsSubsequence-nil []) (ap (steps n) idle.same) (
            steps-Ends n (suc k) last idle.later idle.rest v fresh idle.foreign (idle.grown.kept o)
              bad fine (omega arith))
        | inl ran ↦
            let v' = (run_once M config j v).0 in
            let failed =
              run_fails (run_status M config j 0 v) last ran.later ran.rest v'
                (bad 0 (omega arith)) in
            Ends-later ran.grown ran.few (ap (steps n) (ran.same ∙ failed)) (
              steps-Ends n k last ran.later ran.rest v' fresh ran.foreign (ran.grown.kept o)
                (λ i lt. bad (suc i) (omega arith)) fine (omega (arith, ran.shorter)))
      ]

  -- What Othela lists of the node besides what it listed before.
  abbrev pub Lists : List Report → (List Report → Type 0) → Server N R → Type 0
  Lists before Mine s =
      (new : List Report) × (R.list s.reports ≡ ok (before ++ map stored new))
      × Mine (from_node config.node_id new)

  -- Othela has a job for a node whose first `k` runs fail and whose next one succeeds. The network
  -- loses requests and responses, and other nodes send requests in between. With more ticks than
  -- events and failures, the agent has run the job just `k + 1` times and has it as the last job that
  -- succeeded, and the reports of the node that Othela lists anew are some of these runs' reports, in
  -- their order and none twice.
  pub ticks-Settled :
      (n k : ℕ) (last : String) (s : Server N R) (events : List Event) (v : V)
      (before : List Report)
      → j.job_id ≢ last
      → All (IsForeignEvent wire config.node_id) events
      → Offers wire config.node_id j s
      → ((i : ℕ) → i < k → run_status M config j i v ≢ "Success")
      → run_status M config j k v ≡ "Success"
      → length events + k < n
      → R.list s.reports ≡ ok before
      → ((steps n (at' last s events v)).0 ≡ agent M config j j.job_id)
        × ((steps n (at' last s events v)).1.1 ≡ after_runs M config j (suc k) v)
        × Lists before
            (λ mine. IsSubsequence mine (map (arriving wire) (run_reports M config j (suc k) v)))
            (steps n (at' last s events v)).1.0.0
  ticks-Settled n k last s events v before fresh foreign o bad fine enough listed =
      let r = steps-Ends n k last s events v fresh foreign o bad fine enough in
      let (new, lists, own) = r.grown.listed before listed in
      (
        ap (λ st. st.0) r.same,
        ap (λ st. st.1.1) r.same,
        (
          new,
          ap (λ st. R.list st.1.0.0.reports) r.same ∙ lists,
          subst
              (λ mine. IsSubsequence mine (map (arriving wire) (run_reports M config j (suc k) v)))
              (sym own) r.few,
        ),
      )

  -- Othela offers an agent a job that is not the last one that succeeded, the run of it succeeds,
  -- and its report is lost on its way; then the network loses requests and responses, and other
  -- nodes send requests. Othela never learns of that run: the agent remembers the job as done, and
  -- however long it goes on, Othela lists no new report of the node. The stores are lawful, and
  -- accept every report; the codecs agree on the node's messages, but that task logs arrive
  -- compact; the JSON encoder of maps gives JSON; and the workspace can be written, whatever the
  -- state of the node.
  pub lost_report :
      (n : ℕ) (last : String) (s : Server N R) (events : List Event) (v : V) (before : List Report)
      → j.job_id ≢ last
      → All (IsForeignEvent wire config.node_id) events
      → Offers wire config.node_id j s
      → run_status M config j 0 v ≡ "Success"
      → R.list s.reports ≡ ok before
      → ((steps (suc n) (at' last s (delivered ∷ request_lost ∷ events) v)).0
          ≡ agent M config j j.job_id)
        × Lists before
            (λ mine. mine ≡ [])
            (steps (suc n) (at' last s (delivered ∷ request_lost ∷ events) v)).1.0.0
  unfolding ticks
  lost_report n last s events v before fresh foreign o fine listed =
      let v' = (run_once M config j v).0 in
      let r = steps-done n s events v' foreign o in
      let (new, lists, own) = r.grown.listed before listed in
      let first =
        ap (steps n) (
          step-lost M config j lawful kept accepts wire wired marshals writable last s events v
            fresh o fine)
        ∙ r.same in
      (
        ap (λ st. st.0) first,
        (new, ap (λ st. R.list st.1.0.0.reports) first ∙ lists, own ∙ IsSubsequence-eq_nil r.few),
      )
