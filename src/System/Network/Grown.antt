-- ===== src/System/Network/Grown.antt =====
-- What a server may have become while a node waited: its answer to that node's polls is the same, and
-- it lists more reports.
use mathlib.Core.List.{append-nil, append_assoc, map-append}
use helvilette.Prelude.{
  String, ◌==◌, eq_iff, if◌then◌else◌, ◌≡◌, ◌≢◌, refl, sym, ap, ◌∙◌, List, [], ◌∷◌, ◌++◌, map,
  Result, ok, err, some, Result-cases, inl, inr, arith,
}
use helvilette.Prelude.Dict.{Dict}
use helvilette.Types.{Job, Report}
use helvilette.Storage.{NodeStore, ReportStore, IsNodeStore, IsReportStore}
use helvilette.Playbook.Loader.{Disk}
use helvilette.Server.{
  Server, Decoder, Response, handle_sync, handle_register_node, handle_report, handle_playbooks,
  json_response, job, choose_job,
}
use helvilette.Server.Routes.{
  Endpoint, register_node, report, playbooks, Request, handle, serve, setup_routes,
}
use helvilette.Server.Stores.{register_isolated}
use helvilette.Server.Trace.{run}
use helvilette.Server.Trace.Keeps.{run-SameConfig}
use helvilette.Server.Trace.Reports.{AcceptsReports, brought, serve-listed}
use helvilette.System.{Wire}
use helvilette.System.Exchange.{reported}
use helvilette.System.Network.{IsForeign}

-- The reports of one node.
pub from_node : String → List Report → List Report
from_node node_id [] = []
from_node node_id (r ∷ rs) =
    let rest = from_node node_id rs in if r.node_id == node_id then r ∷ rest else rest

pub from_node-append :
    (node_id : String) (rs qs : List Report)
    → from_node node_id (rs ++ qs) ≡ from_node node_id rs ++ from_node node_id qs
unfolding from_node
from_node-append node_id [] qs = refl
from_node-append node_id (r ∷ rs) qs = ground (arith, from_node-append node_id rs qs)

pub from_node-single :
    (node_id : String) (r : Report) → r.node_id ≡ node_id → from_node node_id (r ∷ []) ≡ r ∷ []
unfolding from_node
from_node-single node_id r own = ground (arith, eq_iff r.node_id node_id)

from_node-others :
    (node_id : String) (r : Report) → r.node_id ≢ node_id → from_node node_id (r ∷ []) ≡ []
unfolding from_node
from_node-others node_id r other = ground (arith, eq_iff r.node_id node_id)

from_node-nil : (node_id : String) → from_node node_id [] ≡ []
unfolding from_node
from_node-nil node_id = refl

module _ {N : NodeStore} {R : ReportStore} (env node_id : String) (s : Server N R) where
  report-same :
      (decoder : Decoder) (body : String)
      → handle_sync env (handle_report decoder s body).0 node_id ≡ handle_sync env s node_id
  unfolding handle_sync handle_report
  report-same decoder body = elim (Result-cases (decoder.report body)) [
    | inl (e, broken) ↦ ground arith
    | inr (r, read) ↦ ground arith
  ]

  playbooks-same :
      (disk : Disk)
      → handle_sync env (handle_playbooks disk s).0 node_id ≡ handle_sync env s node_id
  unfolding handle_sync handle_playbooks
  playbooks-same disk = ground arith

  broken-same :
      (decoder : Decoder) (body e : String)
      → decoder.registration body ≡ err e
      → handle_sync env (handle_register_node decoder s body).0 node_id ≡ handle_sync env s node_id
  unfolding handle_sync handle_register_node
  broken-same decoder body e broken = ground arith

module _ {N : NodeStore} {R : ReportStore} (wire : Wire) (node_id : String) (j : Job) where
  -- The node's polls are answered with the job.
  abbrev pub Offers : Server N R → Type 0
  Offers s = handle_sync wire.env s node_id ≡ json_response 200 (job j)

  -- There is the job for some labels.
  abbrev pub HasJob : Dict String → Server N R → Type 0
  HasJob labels s = choose_job wire.env s.current_job s.playbooks labels ≡ some j

  -- What serving other nodes and saving reports leaves true.
  pub record IsStable (P : Server N R → Type 0) : Type 0 where
    pub served :
        (s : Server N R) (q : Request)
        → IsForeign wire node_id q
        → P s
        → P (serve wire.decoder wire.mux s q).0
    pub saved : (s : Server N R) (r : Report) → P s → P (reported r s)

  handle-Offers :
      (lawful : IsNodeStore N) (e : Endpoint) (vars : Dict String) (s : Server N R) (q : Request)
      → IsForeign wire node_id q
      → Offers s
      → Offers (handle wire.decoder e vars s q).0
  unfolding handle
  handle-Offers lawful register_node vars s q foreign o =
      elim (Result-cases (wire.decoder.registration q.body)) [
        | inl (e, broken) ↦ broken-same wire.env node_id s wire.decoder q.body e broken ∙ o
        | inr (req, read) ↦
            register_isolated lawful wire.env wire.decoder s q.body req node_id read
              (foreign.registration req read)
            ∙ o
      ]
  handle-Offers lawful report vars s q foreign o =
      report-same wire.env node_id s wire.decoder q.body ∙ o
  handle-Offers lawful playbooks vars s q foreign o = playbooks-same wire.env node_id s q.disk ∙ o
  handle-Offers lawful _ vars s q foreign o = o

  serve-Offers :
      (lawful : IsNodeStore N) (s : Server N R) (q : Request)
      → IsForeign wire node_id q
      → Offers s
      → Offers (serve wire.decoder wire.mux s q).0
  unfolding serve
  serve-Offers lawful s q foreign o = elim (Result-cases (wire.mux setup_routes q.method q.path)) [
    | inl (response, unmatched) ↦ ground arith
    | inr ((e, vars), matched) ↦ ground (arith, handle-Offers lawful e vars s q foreign o)
  ]

  pub Offers-IsStable : IsNodeStore N → IsStable Offers
  unfolding handle_sync
  Offers-IsStable lawful = record { served = serve-Offers lawful; saved = λ s r o. o }

  pub HasJob-IsStable : (labels : Dict String) → IsStable (HasJob labels)
  unfolding run
  HasJob-IsStable labels = record {
    served = λ s q foreign h.
        let same = run-SameConfig wire.decoder wire.mux s (q ∷ []) in
        cc (h, same.current_job, same.playbooks);
    saved = λ s r h. h;
  }

module _ {N : NodeStore} {R : ReportStore} (stored : Report → Report) (node_id : String)
    (P : Server N R → Type 0) where
  -- `t` keeps what `s` has, and lists some more reports, `mine` those of the node.
  pub record Grown (s t : Server N R) (mine : List Report) : Type 0 where
    pub kept : P s → P t
    pub listed :
        (base : List Report)
        → R.list s.reports ≡ ok base
        → (new : List Report) × (R.list t.reports ≡ ok (base ++ map stored new))
          × (from_node node_id new ≡ mine)

  pub Grown-refl : (s : Server N R) → Grown s s []
  Grown-refl s = record {
    kept = λ h. h;
    listed = λ base h. ([], h ∙ ap ok (sym (append-nil base)), from_node-nil node_id);
  }

  pub Grown-trans :
      {s t u : Server N R} {mine more : List Report}
      → Grown s t mine
      → Grown t u more
      → Grown s u (mine ++ more)
  Grown-trans {mine} {more} g h = record {
    kept = λ p. h.kept (g.kept p);
    listed = λ base l.
        let (new, l', e) = g.listed base l in
        let (new', l'', e') = h.listed (base ++ map stored new) l' in
        (
          new ++ new',
          l''
              ∙ ap ok (
                  append_assoc base (map stored new) (map stored new')
                  ∙ ap (λ rs. base ++ rs) (sym (map-append stored new new'))),
          from_node-append node_id new new'
              ∙ ap (λ rs. rs ++ from_node node_id new') e
              ∙ ap (λ rs. mine ++ rs) e',
        );
  }

module _ {N : NodeStore} {R : ReportStore} {stored : Report → Report} (wire : Wire)
    (node_id : String) (j : Job) (lawful : IsReportStore R stored) (accepts : AcceptsReports R)
    (P : Server N R → Type 0) (stable : IsStable wire node_id j P) where
  brought-others :
      (q : Request) (route : Result Response (Endpoint × Dict String))
      → IsForeign wire node_id q
      → from_node node_id (brought wire.decoder route q.body) ≡ []
  brought-others q (err response) foreign = from_node-nil node_id
  brought-others q (ok (report, vars)) foreign = elim (Result-cases (wire.decoder.report q.body)) [
    | inl (e, broken) ↦ rw broken (from_node-nil node_id)
    | inr (r, read) ↦ rw read (from_node-others node_id r (foreign.report r read))
  ]
  brought-others q (ok (_, vars)) foreign = from_node-nil node_id

  -- Serving another node.
  pub serve-Grown :
      (s : Server N R) (q : Request)
      → IsForeign wire node_id q
      → Grown stored node_id P s (serve wire.decoder wire.mux s q).0 []
  serve-Grown s q foreign = record {
    kept = stable.served s q foreign;
    listed = λ base l.
        let route = wire.mux setup_routes q.method q.path in
        (
          brought wire.decoder route q.body,
          serve-listed lawful accepts wire.decoder wire.mux s q base l,
          brought-others q route foreign,
        );
  }

  -- Saving a report of the node.
  pub reported-Grown :
      (s : Server N R) (r : Report)
      → r.node_id ≡ node_id
      → Grown stored node_id P s (reported r s) (r ∷ [])
  reported-Grown s r own = record {
    kept = stable.saved s r;
    listed = λ base l. (
      r ∷ [],
      lawful.listed s.reports r base (accepts s.reports r) l,
      from_node-single node_id r own,
    );
  }
