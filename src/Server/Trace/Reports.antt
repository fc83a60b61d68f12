-- ===== src/Server/Trace/Reports.antt =====
-- The reports that a sequence of requests leaves in the store.
use mathlib.Core.List.{append-nil, append_assoc, map-append}
use helvilette.Prelude.{
  String, ◌≡◌, sym, ap, ◌∙◌, List, [], ◌∷◌, ◌++◌, map, Result, ok, err, Result-cases, inl, inr,
  none, arith,
}
use helvilette.Prelude.Dict.{Dict}
use helvilette.Types.{Report}
use helvilette.Storage.{NodeStore, ReportStore, IsReportStore}
use helvilette.Server.{
  Server, Decoder, Response, handle_register_node, handle_report, handle_playbooks,
}
use helvilette.Server.Routes.{
  Endpoint, register_node, report, playbooks, Mux, Request, handle, serve, setup_routes,
}
use helvilette.Server.Trace.{run}

-- The report that a request brings: one that is routed to the report endpoint and decodes.
abbrev pub decoded : Result String Report → List Report
decoded (ok r) = r ∷ []
decoded (err e) = []

abbrev pub brought : Decoder → Result Response (Endpoint × Dict String) → String → List Report
brought decoder (ok (report, vars)) body = decoded (decoder.report body)
brought decoder (ok (_, vars)) body = []
brought decoder (err response) body = []

pub posted : Decoder → Mux → List Request → List Report
posted decoder mux [] = []
posted decoder mux (r ∷ rs) =
    brought decoder (mux setup_routes r.method r.path) r.body ++ posted decoder mux rs

-- The store accepts every report.
abbrev pub AcceptsReports : ReportStore → Type 0
AcceptsReports R = (s : R.State) (r : Report) → (R.save s r).1 ≡ none

module _ {N : NodeStore} {R : ReportStore} {stored : Report → Report}
    (lawful : IsReportStore R stored) (accepts : AcceptsReports R) (decoder : Decoder) where
  handle-listed :
      (e : Endpoint) (vars : Dict String) (s : Server N R) (r : Request) (before : List Report)
      → R.list s.reports ≡ ok before
      → R.list (handle decoder e vars s r).0.reports
        ≡ ok (before ++ map stored (brought decoder (ok (e, vars)) r.body))
  unfolding handle handle_register_node handle_report handle_playbooks
  handle-listed report vars s r before h = elim (Result-cases (decoder.report r.body)) [
    | inl (e, broken) ↦ ground (arith, append-nil before)
    | inr (posted, read) ↦
        ground (arith, lawful.listed s.reports posted before (accepts s.reports posted) h)
  ]
  handle-listed register_node vars s r before h = ground (arith, append-nil before)
  handle-listed playbooks vars s r before h = ground (arith, append-nil before)
  handle-listed _ vars s r before h = ground (arith, append-nil before)

  pub serve-listed :
      (mux : Mux) (s : Server N R) (r : Request) (before : List Report)
      → R.list s.reports ≡ ok before
      → R.list (serve decoder mux s r).0.reports
        ≡ ok (before ++ map stored (brought decoder (mux setup_routes r.method r.path) r.body))
  unfolding serve
  serve-listed mux s r before h = elim (Result-cases (mux setup_routes r.method r.path)) [
    | inl (response, unmatched) ↦ ground (arith, append-nil before)
    | inr ((e, vars), matched) ↦ ground (arith, handle-listed e vars s r before h)
  ]

  -- Over a report store that accepts every report and lists what it accepts, after any requests the
  -- store lists what it listed before and then, in the order of arrival and in the form in which
  -- the adapter stores them, the reports that were posted and could be decoded.
  pub run-listed :
      (mux : Mux) (s : Server N R) (rs : List Request) (before : List Report)
      → R.list s.reports ≡ ok before
      → R.list (run decoder mux s rs).reports ≡ ok (before ++ map stored (posted decoder mux rs))
  unfolding run posted
  run-listed mux s [] before h = h ∙ ap ok (sym (append-nil before))
  run-listed mux s (r ∷ rs) before h =
      let new = brought decoder (mux setup_routes r.method r.path) r.body in
      let later = posted decoder mux rs in
      run-listed mux (serve decoder mux s r).0 rs (before ++ map stored new)
        (serve-listed mux s r before h)
      ∙ ap ok (
          append_assoc before (map stored new) (map stored later)
          ∙ ap (λ l. before ++ l) (sym (map-append stored new later)))
