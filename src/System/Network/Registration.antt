-- ===== src/System/Network/Registration.antt =====
-- The registration of the agent over the network of this part.
use mathlib.Core.Path.{subst}
use helvilette.Prelude.{
  ℕ, zero, suc, ◌≤◌, ◌<◌, String, Bool, true, false, ◌≡◌, sym, ap, ◌∙◌, inl, inr, none, some, err,
  List, [], ◌∷◌, length, All, arith,
}
use helvilette.Types.{Job, Report}
use helvilette.Storage.{NodeStore, ReportStore, IsNodeStore, IsReportStore}
use helvilette.Server.{Server, NodeRegistration, handle_register_node, json_response, registration}
use helvilette.Server.Routes.{serve, handle}
use helvilette.Server.Stores.{register-sync}
use helvilette.Server.Trace.Reports.{AcceptsReports}
use helvilette.FilePath.{◌<>◌}
use helvilette.Agent.{AgentConfiguration}
use helvilette.Agent.Client.{register_node}
use helvilette.System.{Wire, IsWired, request}
use helvilette.System.Exchange.{registered}
use helvilette.System.Network.{Event, IsForeignEvent, deliver, lossy}
use helvilette.System.Network.Grown.{
  Offers, HasJob, HasJob-IsStable, Grown, Grown-refl, Grown-trans,
}
use helvilette.System.Network.Requests.{deliver-Delivery}

-- Rounds in which the process is not told to stop.
abbrev pub undisturbed : ℕ → List (Bool × Bool)
undisturbed zero = []
undisturbed (suc n) = (false, false) ∷ undisturbed n

module _ {N : NodeStore} {R : ReportStore} {Duration : Type 0} {stored : Report → Report}
    (wire : Wire) (config : AgentConfiguration Duration) (valid : String → Bool) (j : Job)
    (Issued : Report → Type 0) (wired : IsWired wire config valid j Issued) (lawful : IsNodeStore N)
    (kept : IsReportStore R stored) (accepts : AcceptsReports R)
    (welcomes : (t : N.State) → (N.register t config.node_id config.labels).1 ≡ none) where
  abbrev text : String
  text = wire.marshal_registration config.node_id config.labels

  abbrev node : NodeRegistration
  node = record { node_id = config.node_id; labels = config.labels }

  abbrev Growing : Server N R → Server N R → Type 0
  Growing s t = Grown stored config.node_id (HasJob wire config.node_id j config.labels) s t []

  registered-Growing : (s : Server N R) → Growing s (registered config s)
  registered-Growing s =
      let same = Grown-refl stored config.node_id (HasJob wire config.node_id j config.labels) s in
      record { kept = λ h. h; listed = same.listed }

  registered-Offers :
      (s : Server N R)
      → HasJob wire config.node_id j config.labels s
      → Offers wire config.node_id j (registered config s)
  unfolding handle_register_node
  registered-Offers s chosen =
      let answer =
        register-sync lawful wire.env wire.decoder s text node wired.registration
          (welcomes s.nodes) in
      ground (arith, wired.registration, answer)

  serve-register :
      (s : Server N R)
      → serve wire.decoder wire.mux s
          (request wire "POST" (config.othela_url <> "/nodes/register") text)
        ≡ (registered config s, json_response 200 (registration node))
  unfolding serve handle handle_register_node
  serve-register s = ground (arith, wired.register_route, wired.registration)

  -- The registration ends on a server that knows the node.
  pub record Joined {V : Type 0} (n : ℕ) (s : Server N R) (events : List Event) (v : V)
      : Type 0 where
    pub later : Server N R
    pub rest : List Event
    pub offers : Offers wire config.node_id j later
    pub grown : Growing s later
    pub foreign : All (IsForeignEvent wire config.node_id) rest
    pub shorter : length rest ≤ length events
    pub same :
        register_node (lossy wire) config (undisturbed n) ((s, events), v)
        ≡ (((later, rest), v), some true)

  -- A round that fails leads to the next one.
  retry :
      {V : Type 0} (n : ℕ) (s s' : Server N R) (events rest : List Event) (v : V) (e : String)
      → Growing s s'
      → length rest < length events
      → deliver wire events s (request wire "POST" (config.othela_url <> "/nodes/register") text)
        ≡ ((s', rest), err e)
      → Joined n s' rest v
      → Joined (suc n) s events v
  unfolding register_node
  retry n s s' events rest v e g lt failed next = record {
    later = next.later;
    rest = next.rest;
    offers = next.offers;
    grown =
        Grown-trans stored config.node_id (HasJob wire config.node_id j config.labels) g next.grown;
    foreign = next.foreign;
    shorter = omega (arith, next.shorter);
    same = ground (arith, next.same);
  }

  pub register_node-Joined :
      {V : Type 0} (n : ℕ) (s : Server N R) (events : List Event) (v : V)
      → All (IsForeignEvent wire config.node_id) events
      → HasJob wire config.node_id j config.labels s
      → length events < n
      → Joined n s events v
  unfolding register_node
  register_node-Joined zero s events v foreign chosen enough = absurd (omega arith)
  register_node-Joined (suc n) s events v foreign chosen enough =
      let P = HasJob wire config.node_id j config.labels in
      let q = request wire "POST" (config.othela_url <> "/nodes/register") text in
      let d =
        deliver-Delivery wire config.node_id j kept accepts P
          (HasJob-IsStable wire config.node_id j config.labels) events s q foreign in
      let served = serve-register d.reached in
      let arrived = Grown-trans stored config.node_id P d.grown (registered-Growing d.reached) in
      elim d.outcome [
        | inl (e, le) ↦ record {
          later = registered config d.reached;
          rest = d.rest;
          offers = registered-Offers d.reached (d.grown.kept chosen);
          grown = arrived;
          foreign = d.foreign;
          shorter = le;
          same = ground arith;
        }
        | inr (e, s', failed, place, lt) ↦
            let g : Growing s s' = elim place [
              | inl before ↦ subst (Growing s) (sym before) d.grown
              | inr after ↦ subst (Growing s) (sym (after ∙ ap (λ p. p.0) served)) arrived
            ] in
            retry n s s' events d.rest v e g lt failed
              (register_node-Joined n s' d.rest v d.foreign (g.kept chosen) (omega arith))
      ]
