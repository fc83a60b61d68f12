-- ===== src/Server/Trace/Keeps.antt =====
-- What no sequence of requests changes.
use helvilette.Prelude.{
  String, true, ◌≡◌, ◌∙◌, List, [], ◌∷◌, Result-cases, inl, inr, Option-cases, arith,
}
use helvilette.Prelude.Dict.{Dict}
use helvilette.Storage.{NodeStore, ReportStore, IsNodeStore}
use helvilette.Server.{Server, Decoder, handle_register_node, handle_report, handle_playbooks}
use helvilette.Server.Routes.{
  Endpoint, register_node, report, playbooks, Mux, Request, handle, serve, setup_routes,
}
use helvilette.Server.Trace.{run}

-- The parts of the state that only the program's own calls change.
pub record SameConfig {N : NodeStore} {R : ReportStore} (s t : Server N R) : Type 0 where
  pub current_job : t.current_job ≡ s.current_job
  pub playbooks : t.playbooks ≡ s.playbooks
  pub ready : t.ready ≡ s.ready
  pub debug_mode : t.debug_mode ≡ s.debug_mode

register-registered :
    {N : NodeStore} (lawful : IsNodeStore N) (nodes : N.State) (n : String) (l : Dict String)
    (node : String)
    → N.is_registered nodes node ≡ true
    → N.is_registered (N.register nodes n l).0 node ≡ true
register-registered {N} lawful nodes n l node known = elim (Option-cases (N.register nodes n l).1) [
  | inl accepted ↦ ground (arith, lawful.registered nodes n l node accepted)
  | inr (e, refused) ↦ ground (arith, lawful.refused nodes n l e node refused)
]

module _ {N : NodeStore} {R : ReportStore} (decoder : Decoder) where
  handle-SameConfig :
      (e : Endpoint) (vars : Dict String) (s : Server N R) (r : Request)
      → SameConfig s (handle decoder e vars s r).0
  unfolding handle handle_register_node handle_report handle_playbooks
  handle-SameConfig register_node vars s r = ground arith
  handle-SameConfig report vars s r = ground arith
  handle-SameConfig playbooks vars s r = ground arith
  handle-SameConfig _ vars s r = ground arith

  handle-registered :
      (lawful : IsNodeStore N) (e : Endpoint) (vars : Dict String) (s : Server N R) (r : Request)
      (node : String)
      → N.is_registered s.nodes node ≡ true
      → N.is_registered (handle decoder e vars s r).0.nodes node ≡ true
  unfolding handle handle_register_node handle_report handle_playbooks
  handle-registered lawful register_node vars s r node known =
      elim (Result-cases (decoder.registration r.body)) [
        | inl (e, broken) ↦ ground arith
        | inr (req, decoded) ↦
            ground (arith, register-registered lawful s.nodes req.node_id req.labels node known)
      ]
  handle-registered lawful report vars s r node known = ground arith
  handle-registered lawful playbooks vars s r node known = ground arith
  handle-registered lawful _ vars s r node known = ground arith

module _ {N : NodeStore} {R : ReportStore} (decoder : Decoder) (mux : Mux) where
  serve-SameConfig : (s : Server N R) (r : Request) → SameConfig s (serve decoder mux s r).0
  unfolding serve
  serve-SameConfig s r = elim (Result-cases (mux setup_routes r.method r.path)) [
    | inl (response, unmatched) ↦ ground arith
    | inr ((e, vars), matched) ↦ ground (arith, handle-SameConfig decoder e vars s r)
  ]

  -- No sequence of requests changes the fallback job, the playbooks in memory, the readiness or the
  -- debug mode.
  pub run-SameConfig : (s : Server N R) (rs : List Request) → SameConfig s (run decoder mux s rs)
  unfolding run
  run-SameConfig s [] = ground arith
  run-SameConfig s (r ∷ rs) =
      let now = serve-SameConfig s r in
      let later = run-SameConfig (serve decoder mux s r).0 rs in
      record {
        current_job = later.current_job ∙ now.current_job;
        playbooks = later.playbooks ∙ now.playbooks;
        ready = later.ready ∙ now.ready;
        debug_mode = later.debug_mode ∙ now.debug_mode;
      }

  serve-registered :
      (lawful : IsNodeStore N) (s : Server N R) (r : Request) (node : String)
      → N.is_registered s.nodes node ≡ true
      → N.is_registered (serve decoder mux s r).0.nodes node ≡ true
  unfolding serve
  serve-registered lawful s r node known = elim (Result-cases (mux setup_routes r.method r.path)) [
    | inl (response, unmatched) ↦ ground arith
    | inr ((e, vars), matched) ↦
        ground (arith, handle-registered decoder lawful e vars s r node known)
  ]

  -- A registered node stays registered through any sequence of requests.
  pub run-registered :
      (lawful : IsNodeStore N) (s : Server N R) (rs : List Request) (node : String)
      → N.is_registered s.nodes node ≡ true
      → N.is_registered (run decoder mux s rs).nodes node ≡ true
  unfolding run
  run-registered lawful s [] node known = known
  run-registered lawful s (r ∷ rs) node known =
      run-registered lawful (serve decoder mux s r).0 rs node
        (serve-registered lawful s r node known)
