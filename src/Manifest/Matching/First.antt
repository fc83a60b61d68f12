-- ===== src/Manifest/Matching/First.antt =====
-- Which group the result of `MatchNodeGroups` begins with.
use helvilette.Prelude.{
  String, ◌≡◌, refl, true, false, ap, ◌∙◌, ◌++◌, List, [], ◌∷◌, arith, All, inl, inr, Bool-cases,
}
use helvilette.Prelude.Dict.{Dict}
use helvilette.Manifest.{Manifest, NodeGroup}
use helvilette.Manifest.Matching.{is_subset, matching, match_node_groups}

abbrev pub Misses : Dict String → NodeGroup → Type 0
Misses labels g = is_subset g.node_selector labels ≡ false

-- The first group of a list whose selector matches.
pub record FirstMatch (labels : Dict String) (groups : List NodeGroup) (g : NodeGroup)
    : Type 0 where
  pub before : List NodeGroup
  pub after : List NodeGroup
  pub split : groups ≡ before ++ g ∷ after
  pub missed : All (Misses labels) before
  pub hit : is_subset g.node_selector labels ≡ true

matching-FirstMatch :
    (groups : List NodeGroup) (labels : Dict String) (g : NodeGroup) (rest : List NodeGroup)
    → matching groups labels ≡ g ∷ rest
    → FirstMatch labels groups g
unfolding matching
matching-FirstMatch [] labels g rest h = absurd (cc)
matching-FirstMatch (x ∷ groups) labels g rest h =
    elim (Bool-cases (is_subset x.node_selector labels)) [
      | inl hit ↦
          let same : x ≡ g = cc in
          record {
            before = [];
            after = groups;
            split = ap (λ y. y ∷ groups) same;
            missed = tt;
            hit = rw (← same) hit;
          }
      | inr miss ↦
          let later = matching-FirstMatch groups labels g rest (rw miss at h) in
          record {
            before = x ∷ later.before;
            after = later.after;
            split = ap (λ l. x ∷ l) later.split;
            missed = (miss, later.missed);
            hit = later.hit;
          }
    ]

-- What the first entry of `MatchNodeGroups` is.
pub match_node_groups-FirstMatch :
    (m : Manifest) (labels : Dict String) (g : NodeGroup) (rest : List NodeGroup)
    → match_node_groups m labels ≡ g ∷ rest
    → FirstMatch labels m.spec.node_groups g
unfolding match_node_groups
match_node_groups-FirstMatch m labels g rest h =
    matching-FirstMatch m.spec.node_groups labels g rest h

matching-nil :
    (groups : List NodeGroup) (labels : Dict String)
    → matching groups labels ≡ []
    → All (Misses labels) groups
unfolding matching
matching-nil [] labels h = tt
matching-nil (x ∷ groups) labels h = ground (arith, matching-nil groups labels)

matching_after :
    (before after : List NodeGroup) (labels : Dict String) (g : NodeGroup)
    → All (Misses labels) before
    → is_subset g.node_selector labels ≡ true
    → matching (before ++ g ∷ after) labels ≡ g ∷ matching after labels
unfolding matching
matching_after [] after labels g _ hit = ground arith
matching_after (x ∷ before) after labels g (miss, missed) hit =
    ground (arith, matching_after before after labels g missed hit)

-- The first group that matches heads the result.
pub match_node_groups_of_FirstMatch :
    (m : Manifest) (labels : Dict String) (g : NodeGroup)
    → FirstMatch labels m.spec.node_groups g
    → (rest : List NodeGroup) × (match_node_groups m labels ≡ g ∷ rest)
unfolding match_node_groups
match_node_groups_of_FirstMatch m labels g f = (
  matching f.after labels,
  ap (λ gs. matching gs labels) f.split ∙ matching_after f.before f.after labels g f.missed f.hit,
)

matching_of_Misses :
    (groups : List NodeGroup) (labels : Dict String)
    → All (Misses labels) groups
    → matching groups labels ≡ []
unfolding matching
matching_of_Misses [] labels _ = refl
matching_of_Misses (x ∷ groups) labels (miss, missed) =
    ground (arith, matching_of_Misses groups labels missed)

pub match_node_groups_of_Misses :
    (m : Manifest) (labels : Dict String)
    → All (Misses labels) m.spec.node_groups
    → match_node_groups m labels ≡ []
unfolding match_node_groups
match_node_groups_of_Misses m labels missed = matching_of_Misses m.spec.node_groups labels missed

-- An empty result means that every selector missed.
pub match_node_groups-nil :
    (m : Manifest) (labels : Dict String)
    → match_node_groups m labels ≡ []
    → All (Misses labels) m.spec.node_groups
unfolding match_node_groups
match_node_groups-nil m labels h = matching-nil m.spec.node_groups labels h
