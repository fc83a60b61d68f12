-- ===== src/Systemd.antt =====
-- pkg/systemd/types.go and client.go: what systemd says of its units. The D-Bus connection is a
-- parameter, and a time is a number.
pub mod Watcher
mod Tests
use helvilette.Prelude.{ℕ, String, Bool, Result, ok, err, List, [], ◌∷◌, map, ◌==◌, if◌then◌else◌}
use helvilette.Prelude.Text.{has_suffix}

-- The states that the program compares with.
abbrev pub active_state_active : String
active_state_active = "active"

abbrev pub active_state_inactive : String
active_state_inactive = "inactive"

abbrev pub active_state_failed : String
active_state_failed = "failed"

abbrev pub active_state_activating : String
active_state_activating = "activating"

abbrev pub active_state_deactivating : String
active_state_deactivating = "deactivating"

abbrev pub active_state_reloading : String
active_state_reloading = "reloading"

abbrev pub sub_state_running : String
sub_state_running = "running"

-- What the program reads of `dbus.UnitStatus`.
pub record UnitStatus : Type 0 where
  pub name : String
  pub description : String
  pub load_state : String
  pub active_state : String
  pub sub_state : String

pub record UnitState : Type 0 where
  pub name : String
  pub description : String
  pub load_state : String
  pub active_state : String
  pub sub_state : String
  pub timestamp : ℕ

pub record UnitEvent : Type 0 where
  pub unit : UnitState
  pub event_type : String
  pub prev_state : String

-- The two calls of the connection.
pub record Bus : Type 0 where
  pub list_units_by_names : List String → Result String (List UnitStatus)
  pub list_units : Result String (List UnitStatus)

pub data UnitError : Type 0 where
  get_failed : String → String → UnitError
  not_found list_failed connect_failed : String → UnitError

pub record SystemdClient (Connection : Type 0) : Type 0 where
  pub conn : Connection

-- `NewClient`, given what opening the connection gives.
unfoldable pub new_client :
    {Connection : Type 0} → Result String Connection → Result UnitError (SystemdClient Connection)
new_client (err e) = err (connect_failed e)
new_client (ok conn) = ok (record { conn = conn })

abbrev pub to_unit_state : ℕ → UnitStatus → UnitState
to_unit_state now u = record {
  name = u.name;
  description = u.description;
  load_state = u.load_state;
  active_state = u.active_state;
  sub_state = u.sub_state;
  timestamp = now;
}

module _ (bus : Bus) (now : ℕ) where
  unfoldable pub get_unit_state : String → Result UnitError UnitState
  get_unit_state name = elim (bus.list_units_by_names (name ∷ [])) [
    | err e ↦ err (get_failed name e)
    | ok units ↦ elim units [ [] ↦ err (not_found name) | u ∷ _ ↦ ok (to_unit_state now u) ]
  ]

  unfoldable pub list_units : Result UnitError (List UnitState)
  list_units = elim bus.list_units [
    | err e ↦ err (list_failed e)
    | ok units ↦ ok (map (to_unit_state now) units)
  ]

abbrev pub is_service : UnitState → Bool
is_service u = has_suffix u.name ".service"

pub keep_services : List UnitState → List UnitState
keep_services [] = []
keep_services (u ∷ units) =
    let rest = keep_services units in if is_service u then u ∷ rest else rest

unfoldable pub list_service_units : Bus → ℕ → Result UnitError (List UnitState)
unfolding keep_services
list_service_units bus now = elim (list_units bus now) [
  | err e ↦ err e
  | ok units ↦ ok (keep_services units)
]

unfoldable pub is_active : Bus → ℕ → String → Result UnitError Bool
is_active bus now name = elim (get_unit_state bus now name) [
  | err e ↦ err e
  | ok state ↦ ok (state.active_state == active_state_active)
]
