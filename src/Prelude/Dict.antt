-- ===== src/Prelude/Dict.antt =====
-- Go's maps with string keys, as association lists whose keys are distinct (`NodupKeys`). The
-- order of the entries stands for the order in which one `range` loop happens to visit them.
use Prim.Native.String.{String}
use mathlib.Core.Path.{◌≡◌, refl}
use mathlib.Core.Option.{Option, none, some}
use mathlib.Core.List.{List, [], ◌∷◌}
use native.Mathlib.Omega.{arith}
use text.Mathlib.Text.{◌==◌}
use text.Mathlib.TextEquality.{eq_iff}
use text.Mathlib.TextPositions.{eq_refl}
use helvilette.Prelude.Tests.{if◌then◌else◌}

abbrev pub Dict {ℓ} : Type ℓ → Type ℓ
Dict V = List (String × V)

module _ {ℓ} {V : Type ℓ} where
  -- `v, ok := m[k]`
  unfoldable pub lookup : String → Dict V → Option V
  lookup key [] = none
  lookup key ((x, found) ∷ rest) = if x == key then some found else lookup key rest

  -- `m[k] = v`
  unfoldable pub insert : String → V → Dict V → Dict V
  insert key new [] = (key, new) ∷ []
  insert key new ((x, old) ∷ rest) =
      if x == key then (key, new) ∷ rest else (x, old) ∷ insert key new rest

  abbrev pub NodupKeys : Dict V → Type ℓ
  NodupKeys [] = Unit
  NodupKeys ((k, _) ∷ m) = (lookup k m ≡ none) × NodupKeys m

  pub lookup-nil : (k : String) → lookup k [] ≡ none
  unfolding lookup
  lookup-nil k = refl

  pub lookup-cons :
      (k j : String) (v : V) (m : Dict V)
      → lookup k ((j, v) ∷ m) ≡ (if j == k then some v else lookup k m)
  unfolding lookup
  lookup-cons k j v m = refl

  pub lookup-insert :
      (k j : String) (v : V) (m : Dict V)
      → lookup j (insert k v m) ≡ (if k == j then some v else lookup j m)
  unfolding lookup insert
  lookup-insert k j new [] = refl
  lookup-insert k j new ((x, old) ∷ rest) =
      ground (arith, lookup-insert k j new rest, eq_iff x j, eq_iff x k, eq_iff k j)

  pub insert-NodupKeys : (k : String) (v : V) (m : Dict V) → NodupKeys m → NodupKeys (insert k v m)
  unfolding insert
  insert-NodupKeys k v [] _ = (lookup-nil k, tt)
  insert-NodupKeys k v ((j, w) ∷ m) (fresh, u) =
      ground (arith, insert-NodupKeys k v m u, lookup-insert k j v m, eq_iff j k, eq_iff k j)

-- `m[k]` of a map to strings: a missing key reads as "".
unfoldable pub get : Dict String → String → String
unfolding lookup
get m k = elim (lookup k m) [ none ↦ "" | some v ↦ v ]

pub ruleset dict_laws = (lookup-nil, lookup-cons, lookup-insert, eq_refl)
