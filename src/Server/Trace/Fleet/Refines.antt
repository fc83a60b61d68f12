-- ===== src/Server/Trace/Fleet/Refines.antt =====
-- The handlers of cmd/othela/server.go beside the abstract fleet.
use mathlib.Core.Quot
use mathlib.Core.Quot.{Quot}
use helvilette.Prelude.{
  String, true, Bool-cases, ◌≡◌, ◌≢◌, refl, sym, ap, ◌∙◌, none, Result-cases, inl, inr, List, [],
  ◌∷◌, arith, eq_iff, ◌==◌,
}
use helvilette.Prelude.Dict.{Dict}
use helvilette.Storage.{NodeStore, ReportStore, IsNodeStore}
use helvilette.Manifest.Matching.Same.{SameMap}
use helvilette.Server.{
  Server, Decoder, labels_of, handle_sync, handle_register_node, handle_report, handle_playbooks,
}
use helvilette.Server.Routes.{
  Endpoint, register_node, report, playbooks, Mux, Request, handle, serve, setup_routes,
}
use helvilette.Server.Stores.{lookup-labels_of}
use helvilette.Server.Trace.{run}
use helvilette.Server.Trace.Keeps.{run-SameConfig}
use helvilette.Server.Trace.Fleet.{
  Labels, Fleet, enrol, answer, enrolled, admit, admit_all, fleet_in, handle_sync-answer,
}

module _ {N : NodeStore} (lawful : IsNodeStore N) (nodes : N.State) (n : String) (l : Dict String)
    (accepted : (N.register nodes n l).1 ≡ none) where
  abbrev nodes' : N.State
  nodes' = (N.register nodes n l).0

  registered_labels : (node : String) → n ≡ node → SameMap (labels_of N nodes' node) l
  registered_labels node same k =
      lookup-labels_of N nodes' node k
      ∙ ground (arith, lawful.labelled nodes n l node k accepted, eq_iff n node)

  other_labels :
      (node : String) → n ≢ node → SameMap (labels_of N nodes' node) (labels_of N nodes node)
  other_labels node other k =
      lookup-labels_of N nodes' node k
      ∙ ground (arith, lawful.labelled nodes n l node k accepted, eq_iff n node)
      ∙ sym (lookup-labels_of N nodes node k)

  register-enrol :
      (node : String) → fleet_in N nodes' node ≡ enrol n (Quot.mk l) (fleet_in N nodes) node
  unfolding fleet_in enrol
  register-enrol node = elim (Bool-cases (n == node)) [
    | inl same ↦
        let alike : ◌≡◌ {A = Labels} (Quot.mk (labels_of N nodes' node)) (Quot.mk l) =
          Quot.sound (registered_labels node ((eq_iff n node).0 same)) in
        let known : N.is_registered nodes' node ≡ true =
          ground (arith, lawful.registered nodes n l node accepted, same) in
        cc (alike, known, same)
    | inr other ↦
        let apart : n ≢ node = λ same. cc (other, (eq_iff n node).1 same) in
        let alike : ◌≡◌ {A = Labels} (Quot.mk (labels_of N nodes' node))
            (Quot.mk (labels_of N nodes node)) =
          Quot.sound (other_labels node apart) in
        let known : N.is_registered nodes' node ≡ N.is_registered nodes node =
          ground (arith, lawful.registered nodes n l node accepted, other) in
        cc (alike, known, other)
  ]

-- Fleets that agree at each node still agree after a request.
admit_all_same :
    (decoder : Decoder) (mux : Mux) (rs : List Request) (f g : Fleet)
    → ((node : String) → f node ≡ g node)
    → (node : String) → admit_all decoder mux rs f node ≡ admit_all decoder mux rs g node
admit_all_same decoder mux rs f g same node =
    ap (λ fleet. admit_all decoder mux rs fleet node) (λ i n. same n i)

module _ {N : NodeStore} {R : ReportStore} (lawful : IsNodeStore N)
    (accepts : (t : N.State) (n : String) (l : Dict String) → (N.register t n l).1 ≡ none)
    (decoder : Decoder) (mux : Mux) where
  handle-enrolled :
      (e : Endpoint) (vars : Dict String) (s : Server N R) (r : Request) (node : String)
      → fleet_in N (handle decoder e vars s r).0.nodes node
        ≡ enrolled decoder mux e r (fleet_in N s.nodes) node
  unfolding handle handle_register_node handle_report handle_playbooks enrolled
  handle-enrolled register_node vars s r node = elim (Result-cases (decoder.registration r.body)) [
    | inl (e, broken) ↦ ground arith
    | inr (req, decoded) ↦ ground (
      arith,
      register-enrol lawful s.nodes req.node_id req.labels (accepts s.nodes req.node_id req.labels)
          node,
    )
  ]
  handle-enrolled report vars s r node = ground arith
  handle-enrolled playbooks vars s r node = ground arith
  handle-enrolled _ vars s r node = refl

  serve-admit :
      (s : Server N R) (r : Request) (node : String)
      → fleet_in N (serve decoder mux s r).0.nodes node
        ≡ admit decoder mux r (fleet_in N s.nodes) node
  unfolding serve admit
  serve-admit s r node = elim (Result-cases (mux setup_routes r.method r.path)) [
    | inl (response, unmatched) ↦ ground arith
    | inr ((e, vars), matched) ↦ ground (arith, handle-enrolled e vars s r node)
  ]

  run-admit_all :
      (s : Server N R) (rs : List Request) (node : String)
      → fleet_in N (run decoder mux s rs).nodes node
        ≡ admit_all decoder mux rs (fleet_in N s.nodes) node
  unfolding run admit_all
  run-admit_all s [] node = refl
  run-admit_all s (r ∷ rs) node =
      run-admit_all (serve decoder mux s r).0 rs node
      ∙ admit_all_same decoder mux rs (fleet_in N (serve decoder mux s r).0.nodes)
          (admit decoder mux r (fleet_in N s.nodes)) (serve-admit s r) node

  -- Over a lawful node store that accepts every registration, a poll after any requests is answered as
  -- the abstract fleet says: the nodes that have registered, each with its last map of labels, in which
  -- the keys have no order. A node that is not in the fleet gets 403, and another the job for its
  -- labels, or 204.
  pub run-answer :
      (env : String) (s : Server N R) (rs : List Request) (node : String)
      → handle_sync env (run decoder mux s rs) node
        ≡ answer env s.current_job s.playbooks (admit_all decoder mux rs (fleet_in N s.nodes) node)
  run-answer env s rs node =
      let same = run-SameConfig decoder mux s rs in
      let t = run decoder mux s rs in
      let spec = handle_sync-answer env t node in
      let fleet = run-admit_all s rs node in cc (same.current_job, same.playbooks, spec, fleet)
