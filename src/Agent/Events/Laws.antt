-- ===== src/Agent/Events/Laws.antt =====
-- What the agent logs of systemd, given what go-systemd does with the watcher's filter.
use helvilette.Prelude.{
  ◌≡◌, refl, ap, inl, inr, Result-cases, ok, List, [], ◌∷◌, ◌++◌, All, In, arith,
}
use helvilette.Systemd.{UnitEvent, new_client}
use helvilette.Systemd.Watcher.{Action, new_stream, new_watcher, process_events}
use helvilette.Systemd.Watcher.Trace.{delivered}
use helvilette.Systemd.Watcher.Subscription.{Changes, Connection, LeavesOut, watch}
use helvilette.Systemd.Watcher.Subscription.Laws.{signals_of, IsUnwatched, watch-IsUnwatched}
use helvilette.Agent.Events.{watch_all, start_watching, watching, log_events, handle_systemd_events}

start_watching-watch :
    (conn : Connection) (signals : List Changes)
    → start_watching (ok conn) ≡ watching signals
    → watch conn (new_watcher []) ≡ ok signals
unfolding start_watching watch_all new_client
start_watching-watch conn signals started = elim (Result-cases (watch conn (new_watcher []))) [
  | inl (e, broken) ↦ absurd (ground arith)
  | inr (signals', fine) ↦ ground arith
]

none-IsUnwatched : (events : List UnitEvent) → All (IsUnwatched []) events → events ≡ []
none-IsUnwatched [] _ = refl
none-IsUnwatched (event ∷ events) ((some_unit, _), _) = absurd (some_unit refl)

append-eq_nil : (xs ys : List UnitEvent) → xs ++ ys ≡ [] → xs ≡ []
append-eq_nil [] ys h = refl
append-eq_nil (x ∷ xs) ys h = absurd (cc)

-- Over a connection that leaves out the units for which the filter holds, an agent whose watcher has
-- started logs no systemd event at all, whatever is signalled, received and cancelled, in any order.
pub handle_systemd_events-nil :
    (conn : Connection) (signals : List Changes) (actions : List Action)
    → LeavesOut conn
    → start_watching (ok conn) ≡ watching signals
    → All (λ changes. In changes signals) (signals_of actions)
    → handle_systemd_events (process_events actions new_stream) ≡ []
unfolding handle_systemd_events log_events
handle_systemd_events-nil conn signals actions leaves started among =
    let s = process_events actions new_stream in
    let silent = none-IsUnwatched (delivered s) (
      watch-IsUnwatched conn [] signals actions leaves (start_watching-watch conn signals started)
        among) in
    ap log_events (append-eq_nil s.received s.queue silent)
