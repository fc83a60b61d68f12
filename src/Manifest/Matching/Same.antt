-- ===== src/Manifest/Matching/Same.antt =====
-- `MatchNodeGroups` on maps with the same entries in different orders.
use helvilette.Prelude.{String, ◌≡◌, refl, List, [], ◌∷◌, arith}
use helvilette.Prelude.Dict.{Dict, lookup, get}
use helvilette.Manifest.{Manifest, NodeGroup}
use helvilette.Manifest.Matching.{has_all, is_subset, matching, match_node_groups}

abbrev pub SameMap : Dict String → Dict String → Type 0
SameMap l l' = (k : String) → lookup k l ≡ lookup k l'

module _ (l l' : Dict String) (same : SameMap l l') where
  get_same : (k : String) → get l k ≡ get l' k
  unfolding get
  get_same k = rw (same k, get)

  has_all_same : (selector : Dict String) → has_all selector l ≡ has_all selector l'
  unfolding has_all
  has_all_same [] = refl
  has_all_same ((k, v) ∷ selector) = ground (arith, get_same k, has_all_same selector)

  is_subset_same : (selector : Dict String) → is_subset selector l ≡ is_subset selector l'
  unfolding is_subset
  is_subset_same [] = refl
  is_subset_same (e ∷ selector) = has_all_same (e ∷ selector)

  matching_same : (groups : List NodeGroup) → matching groups l ≡ matching groups l'
  unfolding matching
  matching_same [] = refl
  matching_same (g ∷ groups) = ground (arith, is_subset_same g.node_selector, matching_same groups)

  pub match_node_groups_same : (m : Manifest) → match_node_groups m l ≡ match_node_groups m l'
  unfolding match_node_groups
  match_node_groups_same m = matching_same m.spec.node_groups
