-- ===== src/Manifest/Validation/Laws.antt =====
-- What `Validate` accepts, and which fault it reports.
use helvilette.Prelude.{
  ℕ, suc, ◌+◌, ◌≡◌, refl, sym, ap, ◌≢◌, ◌↔◌, inl, inr, none, some, List, [], ◌∷◌, ◌++◌, arith,
  eq_iff, All, length, Option-cases,
}
use mathlib.Core.Path.{subst}
use native.Mathlib.Nat.{add-zero}
use helvilette.Manifest.{Manifest, Spec, NodeGroup}
use helvilette.Manifest.Validation.{
  supported_api_version, supported_kind, Error, empty_group_name, empty_node_selector,
  validate_type_meta, validate_spec, validate_node_group, validate_from, validate_node_groups,
  validate,
}

abbrev pub IsEligible : NodeGroup → Type 0
IsEligible g = (g.name ≢ "") × (g.node_selector ≢ [])

-- What a manifest has to hold so that Othela can build a job from it.
pub record IsDispatchable (m : Manifest) : Type 0 where
  pub api_version : m.api_version ≡ supported_api_version
  pub kind : m.kind ≡ supported_kind
  pub name : m.metadata.name ≢ ""
  pub repo : m.spec.repo ≢ ""
  pub playbook : m.spec.playbook ≢ ""
  pub nonempty : m.spec.node_groups ≢ []
  pub groups : All IsEligible m.spec.node_groups

validate_node_group_iff : (i : ℕ) (g : NodeGroup) → (validate_node_group i g ≡ none) ↔ IsEligible g
unfolding validate_node_group
validate_node_group_iff i g = ground (arith, eq_iff g.name "")

validate_from_iff : (i : ℕ) (gs : List NodeGroup) → (validate_from i gs ≡ none) ↔ All IsEligible gs
unfolding validate_from
validate_from_iff i [] = (λ _. tt, λ _. refl)
validate_from_iff i (g ∷ gs) =
    ground (arith, validate_node_group_iff i g, validate_from_iff (suc i) gs)

validate_node_groups_iff :
    (gs : List NodeGroup) → (validate_node_groups gs ≡ none) ↔ ((gs ≢ []) × All IsEligible gs)
unfolding validate_node_groups
validate_node_groups_iff [] = ground arith
validate_node_groups_iff (g ∷ gs) = ground (arith, validate_from_iff 0 (g ∷ gs))

validate_spec_iff : (s : Spec) → (validate_spec s ≡ none) ↔ ((s.repo ≢ "") × (s.playbook ≢ ""))
unfolding validate_spec
validate_spec_iff s = ground (arith, eq_iff s.repo "", eq_iff s.playbook "")

validate_type_meta_iff :
    (m : Manifest)
    → (validate_type_meta m ≡ none)
      ↔ ((m.api_version ≡ supported_api_version) × (m.kind ≡ supported_kind))
unfolding validate_type_meta
validate_type_meta_iff m =
    ground (arith, eq_iff m.api_version supported_api_version, eq_iff m.kind supported_kind)

-- `Validate` accepts a manifest exactly when its apiVersion and kind are the supported ones, its
-- name, repo and playbook are not empty, and it has node groups, each with a name and a selector.
pub validate_iff : (m : Manifest) → (validate m ≡ none) ↔ IsDispatchable m
unfolding validate
validate_iff m = ground (
  arith,
  validate_type_meta_iff m,
  eq_iff m.metadata.name "",
  validate_spec_iff m.spec,
  validate_node_groups_iff m.spec.node_groups,
)

-- The faults that a node group can have, under the index that the error names.
abbrev pub Fault : ℕ → NodeGroup → Error → Type 0
Fault i g (empty_group_name j) = (j ≡ i) × (g.name ≡ "")
Fault i g (empty_node_selector j name) =
    (j ≡ i) × (name ≡ g.name) × (g.name ≢ "") × (g.node_selector ≡ [])
Fault i g _ = ⊥

-- The groups in front of the faulty one, it, and those behind.
pub record FirstFault (i : ℕ) (gs : List NodeGroup) (e : Error) : Type 0 where
  pub before : List NodeGroup
  pub group : NodeGroup
  pub after : List NodeGroup
  pub split : gs ≡ before ++ group ∷ after
  pub eligible : All IsEligible before
  pub fault : Fault (i + length before) group e

validate_node_group-Fault :
    (i : ℕ) (g : NodeGroup) (e : Error) → validate_node_group i g ≡ some e → Fault i g e
unfolding validate_node_group
validate_node_group-Fault i g (empty_group_name j) h = ground (arith, eq_iff g.name "")
validate_node_group-Fault i g _ h = ground (arith, eq_iff g.name "")

shift : (i n : ℕ) → suc i + n ≡ i + suc n
shift i n = omega arith

-- The errors that name a node group.
abbrev pub BlamesGroup : Error → Type 0
BlamesGroup (empty_group_name i) = Unit
BlamesGroup (empty_node_selector i name) = Unit
BlamesGroup _ = ⊥

validate_from-FirstFault :
    (i : ℕ) (gs : List NodeGroup) (e : Error) → validate_from i gs ≡ some e → FirstFault i gs e
unfolding validate_from
validate_from-FirstFault i [] e h = absurd (cc)
validate_from-FirstFault i (g ∷ gs) e h = elim (Option-cases (validate_node_group i g)) [
  | inl fine ↦
      let later = validate_from-FirstFault (suc i) gs e (ground arith) in
      record {
        before = g ∷ later.before;
        group = later.group;
        after = later.after;
        split = ap (λ l. g ∷ l) later.split;
        eligible = ((validate_node_group_iff i g).0 fine, later.eligible);
        fault = subst (λ n. Fault n later.group e) (shift i (length later.before)) later.fault;
      }
  | inr (e', bad) ↦ record {
    before = [];
    group = g;
    after = gs;
    split = refl;
    eligible = tt;
    fault =
        subst (λ n. Fault n g e) (sym (add-zero i))
          (validate_node_group-Fault i g e (ground arith));
  }
]

validate-groups :
    (m : Manifest) (e : Error)
    → validate m ≡ some e
    → BlamesGroup e
    → validate_node_groups m.spec.node_groups ≡ some e
unfolding validate validate_type_meta validate_spec
validate-groups m (empty_group_name i) h b = ground arith
validate-groups m (empty_node_selector i name) h b = ground arith
validate-groups m _ h b = absurd b

validate_node_groups-FirstFault :
    (gs : List NodeGroup) (e : Error)
    → validate_node_groups gs ≡ some e
    → BlamesGroup e
    → FirstFault 0 gs e
unfolding validate_node_groups
validate_node_groups-FirstFault [] (empty_group_name i) h b = cc
validate_node_groups-FirstFault [] (empty_node_selector i name) h b = cc
validate_node_groups-FirstFault [] _ h b = absurd b
validate_node_groups-FirstFault (g ∷ gs) e h b = validate_from-FirstFault 0 (g ∷ gs) e h

-- When `Validate` blames a node group, every group before that one is eligible, and the group at
-- the reported index has the reported fault: no name, or a name and no selector.
pub validate-FirstFault :
    (m : Manifest) (e : Error)
    → validate m ≡ some e
    → BlamesGroup e
    → FirstFault 0 m.spec.node_groups e
validate-FirstFault m e h b = validate_node_groups-FirstFault _ e (validate-groups m e h b) b
