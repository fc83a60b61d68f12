-- ===== src/Systemd/Watcher.antt =====
-- pkg/systemd/watcher.go: the events that reach the agent over a channel of bounded capacity. The
-- maps of changes that the subscription signals are arguments; Subscription says where they come from.
mod Laws
pub mod Trace
mod Watched
pub mod Subscription
pub mod Sample
mod Tests
use helvilette.Prelude.{
  ℕ, String, Bool, true, false, Option, none, some, List, [], ◌∷◌, ◌++◌, length, ltb, ◌==◌, ◌&&◌,
  ◌||◌, not, if◌then◌else◌,
}
use helvilette.Prelude.Dict.{Dict, lookup, insert}
use helvilette.Systemd.{
  UnitStatus, UnitEvent, active_state_active, active_state_inactive, active_state_failed,
  active_state_activating, active_state_deactivating, active_state_reloading, sub_state_running,
}

-- The watched names, as the map that holds `true` for each.
abbrev pub Watched : Type 0
Watched = Dict Bool

unfoldable pub add_units : List String → Watched → Watched
add_units [] watched = watched
add_units (u ∷ units) watched = add_units units (insert u true watched)

-- `NewWatcher`, as far as its map goes.
unfoldable pub new_watcher : List String → Watched
unfolding add_units
new_watcher units = add_units units []

-- `watchUnits[name]`: a missing key reads as false.
abbrev flagged : Option Bool → Bool
flagged none = false
flagged (some b) = b

unfoldable pub is_unit_watched : Watched → String → Bool
is_unit_watched [] name = true
is_unit_watched (w ∷ watched) name = flagged (lookup name (w ∷ watched))

unfoldable pub is_state_changed : Option UnitStatus → Option UnitStatus → Bool
is_state_changed none u2 = true
is_state_changed (some u1) none = true
is_state_changed (some u1) (some u2) =
    not (u1.active_state == u2.active_state) || not (u1.sub_state == u2.sub_state)

unfoldable pub determine_event_type : String → String → String
determine_event_type active_state sub_state =
    if active_state == active_state_active
    then if sub_state == sub_state_running then "started" else "active"
    else if active_state == active_state_inactive
    then "stopped"
    else if active_state == active_state_failed
    then "failed"
    else if active_state == active_state_activating
    then "starting"
    else if active_state == active_state_deactivating
    then "stopping"
    else if active_state == active_state_reloading
    then "reloading"
    else "unknown"

abbrev pub create_unit_event : String → UnitStatus → ℕ → UnitEvent
create_unit_event name status now = record {
  unit = record {
    name = name;
    description = "";
    load_state = status.load_state;
    active_state = status.active_state;
    sub_state = status.sub_state;
    timestamp = now;
  };
  event_type = determine_event_type status.active_state status.sub_state;
  prev_state = "";
}

-- The channel that `Watch` makes holds this many events.
abbrev pub capacity : ℕ
capacity = 100

-- The send of `publishEvent`: an event that finds the channel full is dropped.
unfoldable pub send : UnitEvent → List UnitEvent → List UnitEvent
send event queue = if ltb (length queue) capacity then queue ++ event ∷ [] else queue

unfoldable pub publish_event : String → UnitStatus → ℕ → List UnitEvent → List UnitEvent
publish_event name status now queue = send (create_unit_event name status now) queue

-- The changes of one signal; `clock` is the time at which each unit's event is made.
unfoldable pub handle_changes :
    Dict (Option UnitStatus) → (String → ℕ) → List UnitEvent → List UnitEvent
handle_changes [] clock queue = queue
handle_changes ((name, none) ∷ changes) clock queue = handle_changes changes clock queue
handle_changes ((name, some status) ∷ changes) clock queue =
    handle_changes changes clock (publish_event name status (clock name) queue)

-- What happens next: a branch of the `select` in `processEvents`, or a receive of the agent.
pub data Action : Type 0 where
  cancelled : Action
  changed : Dict (Option UnitStatus) → (String → ℕ) → Action
  failed : String → Action
  receive : Action

-- The channel with its closing, and the events that the agent has taken from it.
pub record Stream : Type 0 where
  pub queue : List UnitEvent
  pub closed : Bool
  pub received : List UnitEvent

abbrev pub new_stream : Stream
new_stream = record { queue = []; closed = false; received = [] }

-- One round of the agent's `handleSystemdEvents`.
receive_event : List UnitEvent → Stream → Stream
receive_event [] s = s
receive_event (event ∷ queue) s = record s { queue = queue; received = s.received ++ event ∷ [] }

-- `processEvents` returns, and so closes the channel, when the context is done; then nothing is sent.
unfoldable pub process_event : Action → Stream → Stream
unfolding receive_event
process_event cancelled s = record s { closed = true }
process_event (changed changes clock) s =
    if s.closed then s else record s { queue = handle_changes changes clock s.queue }
process_event (failed e) s = s
process_event receive s = receive_event s.queue s

unfoldable pub process_events : List Action → Stream → Stream
process_events [] s = s
process_events (action ∷ actions) s = process_events actions (process_event action s)
