-- ===== src/Server/Interleaved/Linear.antt =====
-- The answer of a poll of cmd/othela/server.go that other requests interrupt.
use helvilette.Prelude.{
  Bool, if◌then◌else◌, ◌≤◌, String, true, false, Bool-cases, ◌≡◌, refl, sym, ap, ◌∙◌, inl, inr,
  List, [], ◌∷◌, ◌++◌, arith,
}
use helvilette.Prelude.Dict.{Dict}
use helvilette.Storage.{NodeStore, ReportStore, IsNodeStore}
use helvilette.Server.{
  Server, Decoder, Response, not_registered, labels_of, job_response, choose_job, handle_sync,
}
use helvilette.Server.Routes.{Mux, Request, serve}
use helvilette.Server.Trace.{run}
use helvilette.Server.Trace.Keeps.{run-registered, run-SameConfig}
use helvilette.Server.Interleaved.{
  started, checked, labelled, answered, Action, other, step, others, steps, sync_step, interleaved,
}

module _ {N : NodeStore} {R : ReportStore} (decoder : Decoder) (mux : Mux) (env : String) where
  -- The answer is that of `handleSync` at some point among the other requests.
  pub record IsAtomic (s : Server N R) (actions : List Action) (node_id : String) (r : Response)
      : Type 0 where
    pub before : List Request
    pub after : List Request
    pub split : others actions ≡ before ++ after
    pub at : r ≡ handle_sync env (run decoder mux s before) node_id

  IsAtomic-other :
      (q : Request) (s : Server N R) (actions : List Action) (node_id : String) (r : Response)
      → IsAtomic (serve decoder mux s q).0 actions node_id r
      → IsAtomic s (other q ∷ actions) node_id r
  unfolding others run
  IsAtomic-other q s actions node_id r point = record {
    before = q ∷ point.before;
    after = point.after;
    split = ap (λ qs. q ∷ qs) point.split;
    at = point.at;
  }

  IsAtomic-step :
      (s : Server N R) (actions : List Action) (node_id : String) (r : Response)
      → IsAtomic s actions node_id r
      → IsAtomic s (step ∷ actions) node_id r
  unfolding others
  IsAtomic-step s actions node_id r point = record {
    before = point.before;
    after = point.after;
    split = point.split;
    at = point.at;
  }

  interleaved-answered :
      (actions : List Action) (s : Server N R) (r : Response)
      → (interleaved decoder mux env actions s (answered r)).1 ≡ answered r
  unfolding interleaved sync_step
  interleaved-answered [] s r = refl
  interleaved-answered (other q ∷ actions) s r =
      interleaved-answered actions (serve decoder mux s q).0 r
  interleaved-answered (step ∷ actions) s r = interleaved-answered actions s r

  -- With the labels in hand, only the configuration is read.
  interleaved-labelled :
      (actions : List Action) (s : Server N R) (labels : Dict String)
      → 1 ≤ steps actions
      → (interleaved decoder mux env actions s (labelled labels)).1
        ≡ answered (job_response (choose_job env s.current_job s.playbooks labels))
  unfolding interleaved sync_step steps run
  interleaved-labelled [] s labels enough = absurd (omega arith)
  interleaved-labelled (other q ∷ actions) s labels enough =
      let same = run-SameConfig decoder mux s (q ∷ []) in
      let later = interleaved-labelled actions (serve decoder mux s q).0 labels enough in
      cc (later, same.current_job, same.playbooks)
  interleaved-labelled (step ∷ actions) s labels enough =
      interleaved-answered actions s
        (job_response (choose_job env s.current_job s.playbooks labels))

  handle_sync-known :
      (s : Server N R) (node_id : String)
      → N.is_registered s.nodes node_id ≡ true
      → handle_sync env s node_id
        ≡ job_response (choose_job env s.current_job s.playbooks (labels_of N s.nodes node_id))
  unfolding handle_sync
  handle_sync-known s node_id known = ground arith

  handle_sync-unknown :
      (s : Server N R) (node_id : String)
      → N.is_registered s.nodes node_id ≡ false
      → handle_sync env s node_id ≡ not_registered
  unfolding handle_sync
  handle_sync-unknown s node_id unknown = ground arith

  interleaved-checked :
      (lawful : IsNodeStore N) (actions : List Action) (s : Server N R) (node_id : String)
      → N.is_registered s.nodes node_id ≡ true
      → 2 ≤ steps actions
      → (r : Response) × IsAtomic s actions node_id r
        × ((interleaved decoder mux env actions s (checked node_id)).1 ≡ answered r)
  unfolding interleaved sync_step steps run others
  interleaved-checked lawful [] s node_id known enough = absurd (omega arith)
  interleaved-checked lawful (other q ∷ actions) s node_id known enough =
      let still = run-registered decoder mux lawful s (q ∷ []) node_id known in
      let (r, point, same) =
        interleaved-checked lawful actions (serve decoder mux s q).0 node_id still enough in
      (r, IsAtomic-other q s actions node_id r point, same)
  interleaved-checked lawful (step ∷ actions) s node_id known enough = (
    handle_sync env s node_id,
    record { before = []; after = others actions; split = refl; at = refl },
    interleaved-labelled actions s (labels_of N s.nodes node_id) (omega arith)
        ∙ ap answered (sym (handle_sync-known s node_id known)),
  )

  gate :
      (actions : List Action) (s : Server N R) (node_id : String) (known : Bool)
      → N.is_registered s.nodes node_id ≡ known
      → (interleaved decoder mux env (step ∷ actions) s (started node_id)).1
        ≡ (interleaved decoder mux env actions s
            (if known then checked node_id else answered not_registered)).1
  unfolding interleaved sync_step
  gate actions s node_id known h =
      ap
        (λ b.
          (interleaved decoder mux env actions s
            (if b then checked node_id else answered not_registered)).1)
        h

  -- Over a lawful node store, a poll that has its three steps is answered, and its answer is the one
  -- that it would have had in one step at some point among the requests that were served meanwhile.
  pub interleaved-IsAtomic :
      (lawful : IsNodeStore N) (actions : List Action) (s : Server N R) (node_id : String)
      → 3 ≤ steps actions
      → (r : Response) × IsAtomic s actions node_id r
        × ((interleaved decoder mux env actions s (started node_id)).1 ≡ answered r)
  unfolding interleaved sync_step steps run others
  interleaved-IsAtomic lawful [] s node_id enough = absurd (omega arith)
  interleaved-IsAtomic lawful (other q ∷ actions) s node_id enough =
      let (r, point, same) =
        interleaved-IsAtomic lawful actions (serve decoder mux s q).0 node_id enough in
      (r, IsAtomic-other q s actions node_id r point, same)
  interleaved-IsAtomic lawful (step ∷ actions) s node_id enough =
      elim (Bool-cases (N.is_registered s.nodes node_id)) [
        | inl known ↦
            let (r, point, same) =
              interleaved-checked lawful actions s node_id known (omega arith) in
            (r, IsAtomic-step s actions node_id r point, gate actions s node_id true known ∙ same)
        | inr unknown ↦ (
          not_registered,
          record {
            before = [];
            after = others actions;
            split = refl;
            at = sym (handle_sync-unknown s node_id unknown);
          },
          gate actions s node_id false unknown ∙ interleaved-answered actions s not_registered,
        )
      ]
