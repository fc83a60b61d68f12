-- ===== src/Server/Stores.antt =====
-- What a registration changes for the nodes that poll, over any lawful node store.
use helvilette.Prelude.{
  String, false, ◌≡◌, refl, ◌∙◌, sym, ◌≢◌, none, some, Option-cases, inl, inr, ok, List, [], ◌∷◌,
  arith, eq_iff, eq_refl,
}
use helvilette.Prelude.Dict.{Dict, lookup, lookup-nil}
use helvilette.Types.{Job}
use helvilette.Storage.{NodeStore, ReportStore, label, IsNodeStore}
use helvilette.Manifest.Matching.Same.{SameMap, match_node_groups_same}
use helvilette.Playbook.{Playbook}
use helvilette.Server.{
  Server, NodeRegistration, Decoder, registration, match_job, match_playbooks, choose_job,
  labels_of, handle_register_node, handle_sync, job_response, json_response, not_registered,
}

module _ (env : String) (l l' : Dict String) (same : SameMap l l') where
  match_job_same : (pb : Playbook) → match_job env l pb ≡ match_job env l' pb
  unfolding match_job
  match_job_same pb = elim (Option-cases pb.manifest) [
    | inl missing ↦ ground arith
    | inr (m, has) ↦ ground (arith, match_node_groups_same l l' same m)
  ]

  match_playbooks_same :
      (pbs : List Playbook) → match_playbooks env l pbs ≡ match_playbooks env l' pbs
  unfolding match_playbooks
  match_playbooks_same [] = refl
  match_playbooks_same (pb ∷ pbs) = ground (arith, match_job_same pb, match_playbooks_same pbs)

  pub choose_job_same :
      (j : Job) (pbs : List Playbook) → choose_job env j pbs l ≡ choose_job env j pbs l'
  unfolding choose_job
  choose_job_same j pbs = ground (arith, match_playbooks_same pbs)

-- What a node's labels read as is what `GetLabels` gives the handler.
pub lookup-labels_of :
    (N : NodeStore) (nodes : N.State) (node key : String)
    → lookup key (labels_of N nodes node) ≡ label N nodes node key
lookup-labels_of N nodes node key = ground (arith, lookup-nil {V = String} key)

module _ {N : NodeStore} {R : ReportStore} where
  -- Two servers whose stores agree on a node answer its poll alike.
  pub handle_sync_same :
      {N' : NodeStore} {R' : ReportStore} (env : String) (s : Server N R) (s' : Server N' R')
      (node : String)
      → s.current_job ≡ s'.current_job
      → s.playbooks ≡ s'.playbooks
      → N.is_registered s.nodes node ≡ N'.is_registered s'.nodes node
      → ((key : String) → label N s.nodes node key ≡ label N' s'.nodes node key)
      → handle_sync env s node ≡ handle_sync env s' node
  unfolding handle_sync
  handle_sync_same {N'} env s s' node job pbs known labels =
      let l = labels_of N s.nodes node in
      let l' = labels_of N' s'.nodes node in
      let same : SameMap l l' = λ k.
        lookup-labels_of N s.nodes node k ∙ labels k ∙ sym (lookup-labels_of N' s'.nodes node k) in
      ground (arith, choose_job_same env l l' same s.current_job s.playbooks)

  -- The server's state and answer after a registration whose body decodes.
  abbrev pub after_register : Decoder → Server N R → String → Server N R
  after_register decoder s body = (handle_register_node decoder s body).0

  -- A registration, accepted by the store or not, changes the answer to no other node's poll.
  pub register_isolated :
      (lawful : IsNodeStore N) (env : String) (decoder : Decoder) (s : Server N R) (body : String)
      (req : NodeRegistration) (node : String)
      → decoder.registration body ≡ ok req
      → req.node_id ≢ node
      → handle_sync env (after_register decoder s body) node ≡ handle_sync env s node
  unfolding handle_register_node
  register_isolated lawful env decoder s body req node decoded other =
      let n = req.node_id in
      let l = req.labels in
      handle_sync_same env (after_register decoder s body) s node (ground arith) (ground arith)
        (elim (Option-cases (N.register s.nodes n l).1) [
          | inl accepted ↦
              ground (arith, lawful.registered s.nodes n l node accepted, eq_iff n node)
          | inr (e, refused) ↦ ground (arith, lawful.refused s.nodes n l e node refused)
        ])
        λ key. elim (Option-cases (N.register s.nodes n l).1) [
          | inl accepted ↦
              ground (arith, lawful.labelled s.nodes n l node key accepted, eq_iff n node)
          | inr (e, refused) ↦ ground (arith, lawful.refused_labels s.nodes n l e node key refused)
        ]

  -- After a registration that the store accepts, the node's polls are answered by the labels that
  -- it registered with.
  pub register-sync :
      (lawful : IsNodeStore N) (env : String) (decoder : Decoder) (s : Server N R) (body : String)
      (req : NodeRegistration)
      → decoder.registration body ≡ ok req
      → (N.register s.nodes req.node_id req.labels).1 ≡ none
      → handle_sync env (after_register decoder s body) req.node_id
        ≡ job_response (choose_job env s.current_job s.playbooks req.labels)
  unfolding handle_register_node handle_sync
  register-sync lawful env decoder s body req decoded accepted =
      let n = req.node_id in
      let l = req.labels in
      let nodes = (N.register s.nodes n l).0 in
      let same : SameMap (labels_of N nodes n) l = λ k.
        lookup-labels_of N nodes n k
        ∙ (let e = lawful.labelled s.nodes n l n k accepted in ground (arith, e, eq_refl n)) in
      ground (
        arith,
        lawful.registered s.nodes n l n accepted,
        eq_refl n,
        choose_job_same env (labels_of N nodes n) l same s.current_job s.playbooks,
      )

  -- A registration that the store refuses is answered with 200 all the same, and a node that was
  -- not registered before is then refused by its polls.
  pub refused_registration :
      (lawful : IsNodeStore N) (env : String) (decoder : Decoder) (s : Server N R) (body e : String)
      (req : NodeRegistration)
      → decoder.registration body ≡ ok req
      → (N.register s.nodes req.node_id req.labels).1 ≡ some e
      → N.is_registered s.nodes req.node_id ≡ false
      → ((handle_register_node decoder s body).1 ≡ json_response 200 (registration req))
        × (handle_sync env (after_register decoder s body) req.node_id ≡ not_registered)
  unfolding handle_register_node handle_sync
  refused_registration lawful env decoder s body e req decoded refused unknown =
      ground (arith, lawful.refused s.nodes req.node_id req.labels e req.node_id refused)
