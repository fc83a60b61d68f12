-- ===== src/Agent/Events/Tests.antt =====
-- The agent's watcher on the sample connection, and with none.
use helvilette.Prelude.{◌≡◌, refl, inl, ok, err, [], ◌∷◌}
use helvilette.Systemd.{new_client, connect_failed}
use helvilette.Systemd.Watcher.{
  changed, receive, cancelled, new_stream, is_unit_watched, new_watcher, add_units, process_event,
  process_events, handle_changes, publish_event, send, determine_event_type,
}
use helvilette.Systemd.Watcher.Subscription.{watch, subscribe_units}
use helvilette.Systemd.Watcher.Sample.{changes, unfilter, leave_out, conn, conn-LeavesOut}
use helvilette.Agent.Events.{start_watching, disabled, watching, handle_systemd_events}
use helvilette.Agent.Events.Laws.{handle_systemd_events-nil}

start_watching_test : start_watching (ok conn) ≡ watching ([] ∷ [])
unfolding start_watching new_client watch subscribe_units is_unit_watched new_watcher add_units
    unfilter leave_out
start_watching_test = refl

no_bus_test : start_watching (err "no bus") ≡ disabled (connect_failed "no bus")
unfolding start_watching new_client
no_bus_test = refl

-- A signal that were to come through would be logged.
logged_test :
    handle_systemd_events
      (process_events (changed changes (λ name. 7) ∷ receive ∷ cancelled ∷ []) new_stream)
    ≡ record {
      unit = "nginx.service";
      active_state = "active";
      sub_state = "running";
      event_type = "started";
    }
      ∷ []
unfolding handle_systemd_events process_events process_event handle_changes publish_event send
    determine_event_type
logged_test = refl

handle_systemd_events-nil_example :
    handle_systemd_events
      (process_events (changed [] (λ name. 7) ∷ receive ∷ cancelled ∷ []) new_stream)
    ≡ []
handle_systemd_events-nil_example =
    handle_systemd_events-nil conn ([] ∷ []) (changed [] (λ name. 7) ∷ receive ∷ cancelled ∷ [])
      conn-LeavesOut start_watching_test (inl refl, tt)
