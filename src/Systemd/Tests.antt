-- ===== src/Systemd/Tests.antt =====
-- The calls of the client on a connection that knows two units.
use helvilette.Prelude.{true, ◌≡◌, refl, ok, err, [], ◌∷◌, ◌==◌, if◌then◌else◌}
use helvilette.Prelude.Text.{has_suffix}
use helvilette.Systemd.{
  UnitStatus, Bus, not_found, to_unit_state, get_unit_state, list_units, list_service_units,
  is_active,
}

abbrev nginx : UnitStatus
nginx = record {
  name = "nginx.service";
  description = "";
  load_state = "loaded";
  active_state = "active";
  sub_state = "running";
}

abbrev bus : Bus
bus = record {
  list_units_by_names = λ names. elim names [
    | [] ↦ ok []
    | name ∷ _ ↦ if name == "nginx.service" then ok (nginx ∷ []) else ok []
  ];
  list_units = ok (nginx ∷ record nginx { name = "dbus.socket" } ∷ []);
}

client_tests :
    (is_active bus 7 "nginx.service" ≡ ok true)
    × (is_active bus 7 "mysql.service" ≡ err (not_found "mysql.service"))
    × (list_service_units bus 7 ≡ ok (to_unit_state 7 nginx ∷ []))
unfolding is_active get_unit_state list_service_units list_units has_suffix
client_tests = (refl, refl, refl)
