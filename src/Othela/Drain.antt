-- ===== src/Othela/Drain.antt =====
-- What a signal does to cmd/othela/main.go.
use helvilette.Prelude.{
  String, Option, false, ◌≡◌, refl, ap, ◌⊎◌, inl, inr, none, some, Option-cases, List, [], ◌∷◌, map,
  arith,
}
use helvilette.Storage.{NodeStore, ReportStore}
use helvilette.Server.{Server, Decoder, handle_readyz, set_ready, json_response, status}
use helvilette.Server.Routes.{Mux, Request}
use helvilette.Server.Trace.{run}
use helvilette.Server.Trace.Keeps.{run-SameConfig}
use helvilette.Othela.{signal, stopped, fatal, close_all, shutdown}

pub close_all-map :
    (closers : List (String × Option String)) → close_all closers ≡ map (λ c. c.0) closers
unfolding close_all
close_all-map [] = refl
close_all-map ((name, failure) ∷ closers) = ap (λ l. name ∷ l) (close_all-map closers)

module _ {N : NodeStore} {R : ReportStore} (decoder : Decoder) (mux : Mux) where
  readyz_lem :
      (s : Server N R) → s.ready ≡ false → handle_readyz s ≡ json_response 503 (status "not_ready")
  unfolding handle_readyz
  readyz_lem s h = ground arith

  -- After a signal the readiness probe is answered with 503, whatever requests are served during the
  -- drain; and the process ends with every resource closed, also where the closing of one fails, if
  -- the drain succeeds, and else with the drain's error.
  pub shutdown-Drains :
      (drained : Option String) (closers : List (String × Option String)) (s : Server N R)
      (rs : List Request)
      → (handle_readyz (run decoder mux (shutdown signal drained closers s).0 rs)
          ≡ json_response 503 (status "not_ready"))
        × (((drained ≡ none)
              × ((shutdown signal drained closers s).1 ≡ stopped (map (λ c. c.0) closers)))
            ⊎ ((e : String) × (drained ≡ some e)
                × ((shutdown signal drained closers s).1 ≡ fatal e)))
  unfolding shutdown set_ready
  shutdown-Drains drained closers s rs =
      let t : Server N R = record s { ready = false } in
      (
        readyz_lem (run decoder mux t rs) (run-SameConfig decoder mux t rs).ready,
        elim (Option-cases drained) [
          | inl fine ↦ inl (fine, ground (arith, close_all-map closers))
          | inr (e, late) ↦ inr (e, late, ground arith)
        ],
      )
