-- ===== src/Systemd/Watcher/Sample.antt =====
-- A connection to systemd that signals one map of changes, less the units that the filter names.
use helvilette.Prelude.{String, Bool, true, false, ◌≡◌, refl, Option, some, none, [], ◌∷◌, All}
use helvilette.Prelude.Dict.{Dict}
use helvilette.Systemd.{UnitStatus}
use helvilette.Systemd.Watcher.Subscription.{Changes, Connection, LeavesOut}

abbrev pub nginx : UnitStatus
nginx = record {
  name = "nginx.service";
  description = "web server";
  load_state = "loaded";
  active_state = "active";
  sub_state = "running";
}

abbrev pub changes : Dict (Option UnitStatus)
changes = ("nginx.service", some nginx) ∷ ("ssh.service", none) ∷ []

unfoldable pub leave_out : Bool → String × Option UnitStatus → Changes → Changes
leave_out true change rest = rest
leave_out false change rest = change ∷ rest

unfoldable pub unfilter : (String → Bool) → Changes → Changes
unfilter out [] = []
unfilter out (change ∷ cs) = leave_out (out change.0) change (unfilter out cs)

leave_out-All :
    (out : String → Bool) (b : Bool) (change : String × Option UnitStatus) (rest : Changes)
    → out change.0 ≡ b
    → All (λ c. out c.0 ≡ false) rest
    → All (λ c. out c.0 ≡ false) (leave_out b change rest)
unfolding leave_out
leave_out-All out true change rest same h = h
leave_out-All out false change rest same h = (same, h)

unfilter-All : (out : String → Bool) (cs : Changes) → All (λ c. out c.0 ≡ false) (unfilter out cs)
unfolding unfilter
unfilter-All out [] = tt
unfilter-All out (change ∷ cs) =
    leave_out-All out (out change.0) change (unfilter out cs) refl (unfilter-All out cs)

abbrev pub conn : Connection
conn = record {
  subscribe = none;
  subscribe_units_custom = λ is_changed filter_unit. unfilter filter_unit changes ∷ [];
}

pub conn-LeavesOut : LeavesOut conn
conn-LeavesOut is_changed filter_unit = (unfilter-All filter_unit changes, tt)
