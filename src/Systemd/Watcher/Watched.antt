-- ===== src/Systemd/Watcher/Watched.antt =====
-- `isUnitWatched` of pkg/systemd/watcher.go.
use helvilette.Prelude.{
  String, true, ◌≡◌, ◌↔◌, ◌⊎◌, inl, inr, refl, some, List, [], ◌∷◌, In, arith, eq_iff, Bool,
}
use helvilette.Prelude.Dict.{lookup, insert, lookup-insert, lookup-nil}
use helvilette.Systemd.Watcher.{Watched, add_units, new_watcher, is_unit_watched}

lookup-add_units :
    (name : String) (units : List String) (w : Watched)
    → (lookup name (add_units units w) ≡ some true) ↔ (In name units ⊎ (lookup name w ≡ some true))
unfolding add_units
lookup-add_units name [] w = (λ h. inr h, λ h. ground arith)
lookup-add_units name (u ∷ units) w = ground (
  arith,
  lookup-add_units name units (insert u true w),
  lookup-insert u name true w,
  eq_iff u name,
)

is_unit_watched-lookup :
    (name : String) (w : Watched)
    → (is_unit_watched w name ≡ true) ↔ ((w ≡ []) ⊎ (lookup name w ≡ some true))
unfolding is_unit_watched
is_unit_watched-lookup name [] = (λ h. inl refl, λ h. refl)
is_unit_watched-lookup name (x ∷ w) = ground arith

new_watcher-nil : (u : String) (units : List String) → ¬ (new_watcher (u ∷ units) ≡ [])
unfolding new_watcher
new_watcher-nil u units empty =
    let found = (lookup-add_units u (u ∷ units) []).1 (inl (inl refl)) in
    ground (arith, lookup-nil {V = Bool} u)

-- A watcher watches a unit exactly when it was made for no units at all, or the unit is one of them.
pub is_unit_watched-new_watcher :
    (units : List String) (name : String)
    → (is_unit_watched (new_watcher units) name ≡ true) ↔ ((units ≡ []) ⊎ In name units)
unfolding new_watcher
is_unit_watched-new_watcher [] name =
    (λ h. inl refl, λ h. (is_unit_watched-lookup name []).1 (inl refl))
is_unit_watched-new_watcher (u ∷ units) name = ground (
  arith,
  new_watcher-nil u units,
  is_unit_watched-lookup name (add_units (u ∷ units) []),
  lookup-add_units name (u ∷ units) [],
  lookup-nil {V = Bool} name,
)
