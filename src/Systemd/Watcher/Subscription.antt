-- ===== src/Systemd/Watcher/Subscription.antt =====
-- `Watch` and `subscribeUnits` of pkg/systemd/watcher.go. The connection of go-systemd is a parameter.
pub mod Laws
use helvilette.Prelude.{String, Bool, false, ◌≡◌, Option, none, some, Result, ok, err, List, All}
use helvilette.Prelude.Dict.{Dict}
use helvilette.Systemd.{UnitStatus}
use helvilette.Systemd.Watcher.{Watched, is_state_changed, is_unit_watched}

-- What one signal says: the new status of a unit by its name, or `none` for a unit that is gone.
abbrev pub Changes : Type 0
Changes = Dict (Option UnitStatus)

-- The calls of the connection: the error of `Subscribe`, and all that `SubscribeUnitsCustom` signals,
-- given the comparison and the filter. Its interval is a second, and its channel has no buffer.
pub record Connection : Type 0 where
  pub subscribe : Option String
  pub subscribe_units_custom :
      (Option UnitStatus → Option UnitStatus → Bool) → (String → Bool) → List Changes

-- The filter of `SubscribeUnitsCustom` names the units to leave out: go-systemd compares and signals
-- no unit for which it holds.
abbrev pub LeavesOut : Connection → Type 0
LeavesOut conn =
    (is_changed : Option UnitStatus → Option UnitStatus → Bool) (filter_unit : String → Bool)
    → All (All (λ change. filter_unit change.0 ≡ false))
        (conn.subscribe_units_custom is_changed filter_unit)

unfoldable pub subscribe_units : Connection → Watched → List Changes
subscribe_units conn watched =
    conn.subscribe_units_custom is_state_changed (is_unit_watched watched)

-- `Watch` gives the signals that `processEvents` reads.
unfoldable pub watch : Connection → Watched → Result String (List Changes)
watch conn watched = elim conn.subscribe [
  | some e ↦ err e
  | none ↦ ok (subscribe_units conn watched)
]
