-- ===== src/System/Network/Exchanges.antt =====
-- The agent's polls and reports over the network of this part.
use helvilette.Prelude.{
  ◌≤◌, ◌<◌, String, Bool, true, ◌≡◌, refl, ap, ◌∙◌, ◌⊎◌, inl, inr, some, Result, ok, err, List, [],
  ◌∷◌, length, All, arith,
}
use helvilette.Types.{Job, Report}
use helvilette.Storage.{NodeStore, ReportStore, IsNodeStore, IsReportStore}
use helvilette.Server.{Server, handle_report, json_response, plain_response, text, job}
use helvilette.Server.Routes.{serve, handle}
use helvilette.Server.Trace.Reports.{AcceptsReports}
use helvilette.FilePath.{◌<>◌}
use helvilette.Agent.{AgentConfiguration}
use helvilette.Agent.Client.{PollError, HttpResponse, poll, send_report}
use helvilette.Prelude.Subsequence.{IsSubsequence, IsSubsequence-refl, IsSubsequence-nil}
use helvilette.System.{Wire, IsWired, arriving, request}
use helvilette.System.Exchange.{reported}
use helvilette.System.Network.{Event, delivered, request_lost, IsForeignEvent, deliver, lossy}
use helvilette.System.Network.Requests.{deliver-Delivery}
use helvilette.System.Network.Grown.{Offers, Offers-IsStable, Grown, Grown-trans, reported-Grown}

module _ {N : NodeStore} {R : ReportStore} {Duration : Type 0} {stored : Report → Report}
    (wire : Wire) (config : AgentConfiguration Duration) (valid : String → Bool) (j : Job)
    (Issued : Report → Type 0) (wired : IsWired wire config valid j Issued) (lawful : IsNodeStore N)
    (kept : IsReportStore R stored) (accepts : AcceptsReports R) where
  serve-sync :
      (s : Server N R)
      → Offers wire config.node_id j s
      → serve wire.decoder wire.mux s
          (request wire "GET" (config.othela_url <> "/sync/" <> config.node_id) "")
        ≡ (s, json_response 200 (job j))
  unfolding serve handle
  serve-sync s o = ground (arith, wired.sync_route, wired.sync_id)

  serve-report :
      (s : Server N R) (r : Report)
      → Issued r
      → valid r.task_logs ≡ true
      → serve wire.decoder wire.mux s
          (request wire "POST" (config.othela_url <> "/report") (wired.report_text r))
        ≡ (reported (arriving wire r) s, plain_response 200 (text "Report received"))
  unfolding serve handle handle_report
  serve-report s r issued json =
      ground (arith, wired.report_route, wired.report_decoded r issued json)

  -- A poll gives the job, or an error that uses up an event.
  pub record Polled {V : Type 0} (events : List Event) (s : Server N R) (v : V) : Type 0 where
    pub later : Server N R
    pub rest : List Event
    pub grown : Grown stored config.node_id (Offers wire config.node_id j) s later []
    pub foreign : All (IsForeignEvent wire config.node_id) rest
    pub outcome :
        ((poll (lossy wire) config ((s, events), v) ≡ (((later, rest), v), ok (some j)))
          × (length rest ≤ length events))
        ⊎ ((e : PollError) × (poll (lossy wire) config ((s, events), v)
              ≡ (((later, rest), v), err e))
            × (length rest < length events))

  pub poll-Polled :
      {V : Type 0} (events : List Event) (s : Server N R) (v : V)
      → All (IsForeignEvent wire config.node_id) events
      → Offers wire config.node_id j s
      → Polled events s v
  unfolding poll
  poll-Polled events s v foreign o =
      let q = request wire "GET" (config.othela_url <> "/sync/" <> config.node_id) "" in
      let d =
        deliver-Delivery wire config.node_id j kept accepts (Offers wire config.node_id j)
          (Offers-IsStable wire config.node_id j lawful) events s q foreign in
      let served = serve-sync d.reached (d.grown.kept o) in
      record {
        later = d.reached;
        rest = d.rest;
        grown = d.grown;
        foreign = d.foreign;
        outcome = elim d.outcome [
          | inl (e, le) ↦ inl (ground (arith, wired.job_decoded), le)
          | inr (e, s', same, inl before, lt) ↦ inr (PollError.unconnected e, ground arith, lt)
          | inr (e, s', same, inr after, lt) ↦ inr (PollError.unconnected e, ground arith, lt)
        ];
      }

  -- A report that is sent arrives, or an event is used up.
  pub record Sent {V : Type 0} (events : List Event) (s : Server N R) (v : V) (r : Report)
      : Type 0 where
    pub later : Server N R
    pub rest : List Event
    pub mine : List Report
    pub few : IsSubsequence mine (arriving wire r ∷ [])
    pub grown : Grown stored config.node_id (Offers wire config.node_id j) s later mine
    pub foreign : All (IsForeignEvent wire config.node_id) rest
    pub shorter : length rest ≤ length events
    pub after : (send_report (lossy wire) config r ((s, events), v)).0 ≡ ((later, rest), v)

  after_send :
      {V : Type 0} (events rest : List Event) (s s' : Server N R) (v : V) (r : Report)
      (result : Result String HttpResponse)
      → Issued r
      → valid r.task_logs ≡ true
      → deliver wire events s
          (request wire "POST" (config.othela_url <> "/report") (wired.report_text r))
        ≡ ((s', rest), result)
      → (send_report (lossy wire) config r ((s, events), v)).0 ≡ ((s', rest), v)
  unfolding send_report
  after_send events rest s s' v r result issued json e =
      ground (arith, wired.report_encoded r issued json)

  pub send_report-Sent :
      {V : Type 0} (events : List Event) (s : Server N R) (v : V) (r : Report)
      → All (IsForeignEvent wire config.node_id) events
      → Issued r
      → valid r.task_logs ≡ true
      → r.node_id ≡ config.node_id
      → Sent events s v r
  send_report-Sent events s v r foreign issued json own =
      let q = request wire "POST" (config.othela_url <> "/report") (wired.report_text r) in
      let d =
        deliver-Delivery wire config.node_id j kept accepts (Offers wire config.node_id j)
          (Offers-IsStable wire config.node_id j lawful) events s q foreign in
      let served = ap (λ p. p.0) (serve-report d.reached r issued json) in
      let arrived = Grown-trans stored config.node_id (Offers wire config.node_id j) d.grown (
        reported-Grown wire config.node_id j kept accepts (Offers wire config.node_id j)
          (Offers-IsStable wire config.node_id j lawful) d.reached (arriving wire r) own) in
      let reaching =
        λ (s' : Server N R) (result : Result String HttpResponse)
            (e : deliver wire events s q ≡ ((s', d.rest), result)).
          after_send events d.rest s s' v r result issued json e in
      elim d.outcome [
        | inl (e, le) ↦ record {
          later = reported (arriving wire r) d.reached;
          rest = d.rest;
          mine = arriving wire r ∷ [];
          few = IsSubsequence-refl (arriving wire r ∷ []);
          grown = arrived;
          foreign = d.foreign;
          shorter = le;
          after = reaching _ _ e ∙ ap (λ t. ((t, d.rest), v)) served;
        }
        | inr (e, s', same, inl before, lt) ↦ record {
          later = d.reached;
          rest = d.rest;
          mine = [];
          few = IsSubsequence-nil (arriving wire r ∷ []);
          grown = d.grown;
          foreign = d.foreign;
          shorter = omega arith;
          after = reaching _ _ same ∙ ap (λ t. ((t, d.rest), v)) before;
        }
        | inr (e, s', same, inr after, lt) ↦ record {
          later = reported (arriving wire r) d.reached;
          rest = d.rest;
          mine = arriving wire r ∷ [];
          few = IsSubsequence-refl (arriving wire r ∷ []);
          grown = arrived;
          foreign = d.foreign;
          shorter = omega arith;
          after = reaching _ _ same ∙ ap (λ t. ((t, d.rest), v)) (after ∙ served);
        }
      ]

  pub poll-delivered :
      {V : Type 0} (events : List Event) (s : Server N R) (v : V)
      → Offers wire config.node_id j s
      → poll (lossy wire) config ((s, delivered ∷ events), v) ≡ (((s, events), v), ok (some j))
  unfolding poll deliver
  poll-delivered events s v o = ground (arith, serve-sync s o, wired.job_decoded)

  pub send_report-lost :
      {V : Type 0} (events : List Event) (s : Server N R) (v : V) (r : Report)
      → Issued r
      → valid r.task_logs ≡ true
      → (send_report (lossy wire) config r ((s, request_lost ∷ events), v)).0 ≡ ((s, events), v)
  unfolding deliver
  send_report-lost events s v r issued json =
      after_send (request_lost ∷ events) events s s v r (err "connection refused") issued json refl
