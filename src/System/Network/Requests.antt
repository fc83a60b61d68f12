-- ===== src/System/Network/Requests.antt =====
-- How one request of the agent fares over the network of this part.
use helvilette.Prelude.{
  ◌≤◌, ◌<◌, String, ◌≡◌, refl, ◌⊎◌, inl, inr, ok, err, List, [], ◌∷◌, length, All, arith,
}
use helvilette.Types.{Job, Report}
use helvilette.Storage.{NodeStore, ReportStore, IsReportStore}
use helvilette.Server.{Server}
use helvilette.Server.Routes.{Request, serve}
use helvilette.Server.Trace.Reports.{AcceptsReports}
use helvilette.System.{Wire, http_response}
use helvilette.System.Network.{
  Event, other, delivered, request_lost, response_lost, IsForeignEvent, deliver,
}
use helvilette.System.Network.Grown.{IsStable, Grown, Grown-refl, Grown-trans, serve-Grown}

module _ {N : NodeStore} {R : ReportStore} {stored : Report → Report} (wire : Wire)
    (node_id : String) (j : Job) (kept : IsReportStore R stored) (accepts : AcceptsReports R)
    (P : Server N R → Type 0) (stable : IsStable wire node_id j P) where
  -- How a request fares: it reaches some server, is served there or not, and its response comes back
  -- or an error does, which uses up an event.
  pub record Delivery (events : List Event) (s : Server N R) (q : Request) : Type 0 where
    pub reached : Server N R
    pub grown : Grown stored node_id P s reached []
    pub rest : List Event
    pub foreign : All (IsForeignEvent wire node_id) rest
    pub outcome :
        ((deliver wire events s q ≡ (
          ((serve wire.decoder wire.mux reached q).0, rest),
          ok (http_response wire (serve wire.decoder wire.mux reached q).1),
        ))
          × (length rest ≤ length events))
        ⊎ ((e : String) × (s' : Server N R) × (deliver wire events s q ≡ ((s', rest), err e))
            × ((s' ≡ reached) ⊎ (s' ≡ (serve wire.decoder wire.mux reached q).0))
            × (length rest < length events))

  pub deliver-Delivery :
      (events : List Event) (s : Server N R) (q : Request)
      → All (IsForeignEvent wire node_id) events
      → Delivery events s q
  unfolding deliver
  deliver-Delivery [] s q _ = record {
    reached = s;
    grown = Grown-refl stored node_id P s;
    rest = [];
    foreign = tt;
    outcome = inl (refl, omega arith);
  }
  deliver-Delivery (other o ∷ events) s q (f, fs) =
      let d = deliver-Delivery events (serve wire.decoder wire.mux s o).0 q fs in
      record {
        reached = d.reached;
        grown =
            Grown-trans stored node_id P (serve-Grown wire node_id j kept accepts P stable s o f)
              d.grown;
        rest = d.rest;
        foreign = d.foreign;
        outcome = elim d.outcome [
          | inl (e, le) ↦ inl (e, omega arith)
          | inr (e, s', same, place, lt) ↦ inr (e, s', same, place, omega arith)
        ];
      }
  deliver-Delivery (delivered ∷ events) s q (_, fs) = record {
    reached = s;
    grown = Grown-refl stored node_id P s;
    rest = events;
    foreign = fs;
    outcome = inl (refl, omega arith);
  }
  deliver-Delivery (request_lost ∷ events) s q (_, fs) = record {
    reached = s;
    grown = Grown-refl stored node_id P s;
    rest = events;
    foreign = fs;
    outcome = inr ("connection refused", s, refl, inl refl, omega arith);
  }
  deliver-Delivery (response_lost ∷ events) s q (_, fs) = record {
    reached = s;
    grown = Grown-refl stored node_id P s;
    rest = events;
    foreign = fs;
    outcome = inr ("connection reset", _, refl, inr refl, omega arith);
  }
