-- ===== src/Systemd/Watcher/Tests.antt =====
-- Runs of the watcher on two units, and its theorems there.
use helvilette.Prelude.{
  ℕ, String, true, false, ◌≡◌, ◌⊎◌, ok, ◌≤◌, ◌<◌, refl, some, none, List, [], ◌∷◌, length,
}
use helvilette.Prelude.Dict.{insert, lookup}
use helvilette.Prelude.Subsequence.{IsSubsequence}
use helvilette.Systemd.Watcher.{
  Action, cancelled, changed, receive, new_stream, create_unit_event, determine_event_type, send,
  publish_event, handle_changes, is_state_changed, process_event, process_events, is_unit_watched,
  new_watcher, add_units,
}
use helvilette.Systemd.Watcher.Subscription.{Changes, subscribe_units, watch}
use helvilette.Systemd.Watcher.Sample.{nginx, changes, unfilter, leave_out, conn}
use helvilette.Systemd.Watcher.Trace.{delivered, offered, process_events-delivered}

abbrev clock : String → ℕ
clock name = 7

-- A signal, a receive, the end, and a signal that comes too late.
abbrev day : List Action
day = changed changes clock ∷ receive ∷ cancelled ∷ changed changes clock ∷ []

day_test : process_events day new_stream ≡ record {
  queue = [];
  closed = true;
  received = create_unit_event "nginx.service" nginx 7 ∷ [];
}
unfolding process_events process_event handle_changes publish_event send
day_test = refl

determine_event_type_tests :
    (determine_event_type "active" "running" ≡ "started")
    × (determine_event_type "active" "exited" ≡ "active")
    × (determine_event_type "reloading" "" ≡ "reloading")
    × (determine_event_type "some-unknown-state" "" ≡ "unknown")
unfolding determine_event_type
determine_event_type_tests = (refl, refl, refl, refl)

is_state_changed_tests :
    (is_state_changed (some nginx) (some nginx) ≡ false)
    × (is_state_changed (some nginx) (some (record nginx { sub_state = "exited" })) ≡ true)
    × (is_state_changed none (some nginx) ≡ true)
unfolding is_state_changed
is_state_changed_tests = (refl, refl, refl)

process_events-delivered_example :
    IsSubsequence (delivered (process_events day new_stream)) (offered day)
    × (length (process_events day new_stream).queue ≤ 100)
    × ((delivered (process_events day new_stream) ≡ offered day) ⊎ (100 < length (offered day)))
process_events-delivered_example = process_events-delivered day

abbrev units : List String
units = "ssh.service" ∷ []

-- Only the unit that was not asked for is signalled.
abbrev heard : Changes
heard = ("nginx.service", some nginx) ∷ []

watch_test : watch conn (new_watcher units) ≡ ok (heard ∷ [])
unfolding watch subscribe_units is_unit_watched new_watcher add_units unfilter leave_out insert
    lookup
watch_test = refl
