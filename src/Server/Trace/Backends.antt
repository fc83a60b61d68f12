-- ===== src/Server/Trace/Backends.antt =====
-- The server of cmd/othela/server.go over two different pairs of stores.
use mathlib.Core.Path.{subst₂}
use helvilette.Prelude.{String, ◌≡◌, refl, sym, none, List, [], ◌∷◌, Result-cases, inl, inr, arith}
use helvilette.Prelude.Dict.{Dict, get}
use helvilette.Storage.{NodeStore, ReportStore, label, IsNodeStore}
use helvilette.Playbook.Loader.{Disk}
use helvilette.Server.{
  Server, Response, Decoder, handle_register_node, handle_report, handle_playbooks, handle_readyz,
}
use helvilette.Server.Routes.{
  Endpoint, register_node, sync, report, playbooks, healthz, readyz, Mux, Request, handle, serve,
  setup_routes,
}
use helvilette.Server.Stores.{handle_sync_same}
use helvilette.Server.Trace.{answers}

-- The store accepts every registration.
abbrev pub AcceptsNodes : NodeStore → Type 0
AcceptsNodes N = (s : N.State) (n : String) (l : Dict String) → (N.register s n l).1 ≡ none

-- Two stores that know the same nodes, with the same labels.
pub record SameNodes (N N' : NodeStore) (nodes : N.State) (nodes' : N'.State) : Type 0 where
  pub known : (node : String) → N.is_registered nodes node ≡ N'.is_registered nodes' node
  pub labels : (node key : String) → label N nodes node key ≡ label N' nodes' node key

-- Two servers that differ only in how they store nodes and reports.
pub record Alike {N N' : NodeStore} {R R' : ReportStore} (s : Server N R) (t : Server N' R')
    : Type 0 where
  pub loader : s.loader ≡ t.loader
  pub current_job : s.current_job ≡ t.current_job
  pub playbooks : s.playbooks ≡ t.playbooks
  pub ready : s.ready ≡ t.ready
  pub nodes : SameNodes N N' s.nodes t.nodes

handle_playbooks_nodes :
    {N : NodeStore} {R : ReportStore} (disk : Disk) (s : Server N R)
    → (handle_playbooks disk s).0.nodes ≡ s.nodes
unfolding handle_playbooks
handle_playbooks_nodes disk s = ground arith

module _ {N N' : NodeStore} (lawful : IsNodeStore N) (lawful' : IsNodeStore N')
    (accepts : AcceptsNodes N) (accepts' : AcceptsNodes N') where
  register-SameNodes :
      (nodes : N.State) (nodes' : N'.State) (n : String) (l : Dict String)
      → SameNodes N N' nodes nodes'
      → SameNodes N N' (N.register nodes n l).0 (N'.register nodes' n l).0
  register-SameNodes nodes nodes' n l same = record {
    known = λ m. ground (
      arith,
      lawful.registered nodes n l m (accepts nodes n l),
      lawful'.registered nodes' n l m (accepts' nodes' n l),
      same.known m,
    );
    labels = λ m k. ground (
      arith,
      lawful.labelled nodes n l m k (accepts nodes n l),
      lawful'.labelled nodes' n l m k (accepts' nodes' n l),
      same.labels m k,
    );
  }

  module _ {R R' : ReportStore} (decoder : Decoder) where
    Alike-nodes :
        (s : Server N R) (t : Server N' R') (nodes : N.State) (nodes' : N'.State)
        → Alike s t
        → SameNodes N N' nodes nodes'
        → Alike (record s { nodes = nodes }) (record t { nodes = nodes' })
    Alike-nodes s t nodes nodes' h same = record {
      loader = h.loader;
      current_job = h.current_job;
      playbooks = h.playbooks;
      ready = h.ready;
      nodes = same;
    }

    Alike-reports :
        (s : Server N R) (t : Server N' R') (x : R.State) (y : R'.State)
        → Alike s t
        → Alike (record s { reports = x }) (record t { reports = y })
    Alike-reports s t x y h = record {
      loader = h.loader;
      current_job = h.current_job;
      playbooks = h.playbooks;
      ready = h.ready;
      nodes = h.nodes;
    }

    -- The states stay alike and the answers are equal.
    abbrev Step : (Server N R × Response) → (Server N' R' × Response) → Type 0
    Step (s, a) (t, b) = Alike s t × (a ≡ b)

    handle_playbooks-Alike :
        (disk : Disk) (s : Server N R) (t : Server N' R')
        → Alike s t
        → Step (handle_playbooks disk s) (handle_playbooks disk t)
    unfolding handle_playbooks
    handle_playbooks-Alike disk s t h = (
      record {
        loader = ground (arith, h.loader);
        current_job = ground (arith, h.current_job);
        playbooks = ground (arith, h.playbooks);
        ready = ground (arith, h.ready);
        nodes =
            subst₂ (SameNodes N N') (sym (handle_playbooks_nodes disk s))
              (sym (handle_playbooks_nodes disk t)) h.nodes;
      },
      ground (arith, h.loader),
    )

    handle-Alike :
        (e : Endpoint) (vars : Dict String) (s : Server N R) (t : Server N' R') (r : Request)
        → Alike s t
        → Step (handle decoder e vars s r) (handle decoder e vars t r)
    unfolding handle handle_register_node handle_report handle_playbooks handle_readyz
    handle-Alike register_node vars s t r h = elim (Result-cases (decoder.registration r.body)) [
      | inl (e, broken) ↦ rw (broken, handle_register_node) (h, refl)
      | inr (req, decoded) ↦
          rw (decoded, handle_register_node)
            (
              Alike-nodes s t _ _ h
                  (register-SameNodes s.nodes t.nodes req.node_id req.labels h.nodes),
              refl,
            )
    ]
    handle-Alike sync vars s t r h = (
      h,
      handle_sync_same r.env s t (get vars "node_id") h.current_job h.playbooks
          (h.nodes.known (get vars "node_id")) (h.nodes.labels (get vars "node_id")),
    )
    handle-Alike report vars s t r h = elim (Result-cases (decoder.report r.body)) [
      | inl (e, broken) ↦ rw (broken, handle_report) (h, refl)
      | inr (rep, decoded) ↦ rw (decoded, handle_report) (Alike-reports s t _ _ h, refl)
    ]
    handle-Alike playbooks vars s t r h = handle_playbooks-Alike r.disk s t h
    handle-Alike healthz vars s t r h = (h, refl)
    handle-Alike readyz vars s t r h = (h, ground (arith, h.ready))

    serve-Alike :
        (mux : Mux) (s : Server N R) (t : Server N' R') (r : Request)
        → Alike s t
        → Step (serve decoder mux s r) (serve decoder mux t r)
    unfolding serve
    serve-Alike mux s t r h = elim (Result-cases (mux setup_routes r.method r.path)) [
      | inl (response, unmatched) ↦ rw (unmatched, serve) (h, refl)
      | inr ((e, vars), matched) ↦ rw (matched, serve) (handle-Alike e vars s t r h)
    ]

    -- Over two lawful node stores that accept every registration, and over any two report stores,
    -- servers that start alike give the same answers to the same requests.
    pub answers_same :
        (mux : Mux) (s : Server N R) (t : Server N' R') (rs : List Request)
        → Alike s t
        → answers decoder mux s rs ≡ answers decoder mux t rs
    unfolding answers
    answers_same mux s t [] h = refl
    answers_same mux s t (r ∷ rs) h =
        let (alike, same) = serve-Alike mux s t r h in
        let rest = answers_same mux (serve decoder mux s r).0 (serve decoder mux t r).0 rs alike in
        cc
