-- ===== src/Server/Trace.antt =====
-- A server through any sequence of requests.
pub mod Keeps
pub mod Fleet
pub mod Reports
pub mod Backends
use helvilette.Prelude.{List, [], ◌∷◌}
use helvilette.Storage.{NodeStore, ReportStore}
use helvilette.Server.{Server, Decoder, Response}
use helvilette.Server.Routes.{Mux, Request, serve}

module _ {N : NodeStore} {R : ReportStore} (decoder : Decoder) (mux : Mux) where
  -- The state after the requests.
  unfoldable pub run : Server N R → List Request → Server N R
  run s [] = s
  run s (r ∷ rs) = run (serve decoder mux s r).0 rs

  -- The answers to them.
  unfoldable pub answers : Server N R → List Request → List Response
  answers s [] = []
  answers s (r ∷ rs) = (serve decoder mux s r).1 ∷ answers (serve decoder mux s r).0 rs
