-- ===== src/Agent/Events.antt =====
-- The systemd part of `Run`, and `handleSystemdEvents`, of cmd/agent/main.go. What opening the
-- connection to systemd gives is an argument; the watcher's channel is in Systemd/Watcher.
mod Laws
mod Tests
use helvilette.Prelude.{String, Result, ok, err, List, [], ◌∷◌}
use helvilette.Systemd.{UnitEvent, UnitError, SystemdClient, new_client}
use helvilette.Systemd.Watcher.{Stream, new_watcher}
use helvilette.Systemd.Watcher.Subscription.{Changes, Connection, watch}

-- Whether `Run` has started the watcher: no connection, no subscription, or these signals.
pub data Watching : Type 0 where
  disabled : UnitError → Watching
  unsubscribed : String → Watching
  watching : List Changes → Watching

watch_all : SystemdClient Connection → Watching
watch_all client = elim (watch client.conn (new_watcher [])) [
  | err e ↦ unsubscribed e
  | ok signals ↦ watching signals
]

-- The error of either call is only logged: the agent goes on without the events.
unfoldable pub start_watching : Result String Connection → Watching
unfolding watch_all
start_watching connected = elim (new_client connected) [
  | err e ↦ disabled e
  | ok client ↦ watch_all client
]

-- The message "systemd unit event".
pub record EventLog : Type 0 where
  pub unit : String
  pub active_state : String
  pub sub_state : String
  pub event_type : String

abbrev event_log : UnitEvent → EventLog
event_log event = record {
  unit = event.unit.name;
  active_state = event.unit.active_state;
  sub_state = event.unit.sub_state;
  event_type = event.event_type;
}

log_events : List UnitEvent → List EventLog
log_events [] = []
log_events (event ∷ events) = event_log event ∷ log_events events

-- What `handleSystemdEvents` has logged when the channel and its receives are as in this stream.
unfoldable pub handle_systemd_events : Stream → List EventLog
unfolding log_events
handle_systemd_events s = log_events s.received
