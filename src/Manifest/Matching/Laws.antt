-- ===== src/Manifest/Matching/Laws.antt =====
-- What a node selector selects.
use helvilette.Prelude.{String, ◌≡◌, refl, ◌≢◌, ◌↔◌, true, none, some, [], ◌∷◌, arith, eq_iff, All}
use helvilette.Prelude.Dict.{Dict, NodupKeys, lookup, lookup-cons, get}
use helvilette.Manifest.Matching.{has_all, is_subset}

-- Every entry of the first map is an entry of the second.
abbrev pub SubmapOf : Dict String → Dict String → Type 0
SubmapOf selector labels = (k v : String) → lookup k selector ≡ some v → lookup k labels ≡ some v

-- The test of the loop at one entry, where a missing label counts as "".
abbrev pub Agrees : Dict String → String × String → Type 0
Agrees labels (k, v) = get labels k ≡ v

has_all_iff :
    (selector labels : Dict String)
    → (has_all selector labels ≡ true) ↔ All (Agrees labels) selector
unfolding has_all
has_all_iff [] labels = (λ _. tt, λ _. refl)
has_all_iff ((k, v) ∷ selector) labels =
    ground (arith, eq_iff (get labels k) v, has_all_iff selector labels)

-- A selector matches exactly when it is not empty and reading the labels at each of its keys, a
-- missing one as "", gives the selector's value.
pub is_subset_iff :
    (selector labels : Dict String)
    → (is_subset selector labels ≡ true) ↔ ((selector ≢ []) × All (Agrees labels) selector)
unfolding is_subset
is_subset_iff [] labels = ground arith
is_subset_iff (e ∷ selector) labels = ground (arith, has_all_iff (e ∷ selector) labels)

abbrev pub NoEmptyValue : String × String → Type 0
NoEmptyValue (k, v) = v ≢ ""

get_of_lookup : (k v : String) (labels : Dict String) → lookup k labels ≡ some v → get labels k ≡ v
unfolding get
get_of_lookup k v labels h = ground arith

lookup_of_get :
    (k v : String) (labels : Dict String) → v ≢ "" → get labels k ≡ v → lookup k labels ≡ some v
unfolding get
lookup_of_get k v labels n h = ground arith

Agrees-Submap :
    (selector labels : Dict String)
    → All NoEmptyValue selector
    → All (Agrees labels) selector
    → SubmapOf selector labels
unfolding lookup
Agrees-Submap [] labels _ _ k v h = absurd (cc)
Agrees-Submap ((j, w) ∷ selector) labels (n, ns) (a, as') k v h =
    ground
      (arith, eq_iff j k, lookup_of_get j w labels n a, Agrees-Submap selector labels ns as' k v)

SubmapOf-tail :
    (j w : String) (selector labels : Dict String)
    → lookup j selector ≡ none
    → SubmapOf ((j, w) ∷ selector) labels
    → SubmapOf selector labels
SubmapOf-tail j w selector labels fresh sub k v h =
    sub k v (ground (arith, lookup-cons k j w selector, eq_iff j k))

Submap-Agrees :
    (selector labels : Dict String)
    → NodupKeys selector
    → SubmapOf selector labels
    → All (Agrees labels) selector
Submap-Agrees [] labels _ _ = tt
Submap-Agrees ((j, w) ∷ selector) labels (fresh, u) sub = (
  get_of_lookup j w labels (sub j w (ground (arith, lookup-cons j j w selector, eq_iff j j))),
  Submap-Agrees selector labels u (SubmapOf-tail j w selector labels fresh sub),
)

-- A selector with no empty value matches exactly when it is not empty and each of its entries is
-- one of the labels.
pub is_subset-SubmapOf :
    (selector labels : Dict String)
    → NodupKeys selector
    → All NoEmptyValue selector
    → (is_subset selector labels ≡ true) ↔ ((selector ≢ []) × SubmapOf selector labels)
is_subset-SubmapOf selector labels u n =
    let (to, from) = is_subset_iff selector labels in
    (
      λ h. let (nonempty, agrees) = to h in (nonempty, Agrees-Submap selector labels n agrees),
      λ (nonempty, sub). from (nonempty, Submap-Agrees selector labels u sub),
    )
