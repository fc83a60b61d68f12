-- ===== src/Manifest/Tests.antt =====
-- Runs of the manifest's operations, and the theorems at a sample manifest.
use helvilette.Prelude.{
  String, ◌≡◌, refl, ◌≢◌, ◌↔◌, true, false, none, some, List, [], ◌∷◌, arith, eq_iff,
}
use helvilette.Prelude.Dict.{Dict, lookup, NodupKeys}
use helvilette.Manifest.{Manifest, NodeGroup}
use helvilette.Manifest.Validation.{
  supported_api_version, supported_kind, validate, validate_type_meta, validate_spec,
  validate_node_group, validate_node_groups, empty_node_selector,
}
use helvilette.Manifest.Validation.Laws.{
  IsDispatchable, validate_iff, FirstFault, validate-FirstFault,
}
use helvilette.Manifest.Matching.{is_subset, match_node_groups}
use helvilette.Manifest.Matching.Laws.{SubmapOf, is_subset-SubmapOf}

abbrev group : String → Dict String → NodeGroup
group name selector = record {
  name = name;
  node_selector = selector;
  ansible = record { vault_password_file = ""; extra_vars = [] };
}

abbrev edge : NodeGroup
edge = group "edge" (("role", "edge") ∷ ("env", "prod") ∷ [])

abbrev unselective : NodeGroup
unselective = group "all" []

abbrev manifest : List NodeGroup → Manifest
manifest groups = record {
  api_version = supported_api_version;
  kind = supported_kind;
  metadata = record { name = "fleet"; namespace = ""; labels = []; description = "" };
  spec = record { repo = "repo.git"; branch = "main"; playbook = "site.yml"; node_groups = groups };
}

abbrev labels : Dict String
labels = ("env", "prod") ∷ ("zone", "a") ∷ ("role", "edge") ∷ []

validate_tests :
    (validate (manifest (edge ∷ [])) ≡ none)
    × (validate (manifest (edge ∷ unselective ∷ [])) ≡ some (empty_node_selector 1 "all"))
unfolding validate validate_type_meta validate_spec validate_node_group validate_node_groups
validate_tests = (refl, refl)

match_tests :
    (match_node_groups (manifest (unselective ∷ edge ∷ [])) labels ≡ edge ∷ [])
    × (is_subset (("role", "edge") ∷ []) [] ≡ false)
unfolding match_node_groups
match_tests = (refl, refl)

validate_iff_example :
    (validate (manifest (edge ∷ [])) ≡ none) ↔ IsDispatchable (manifest (edge ∷ []))
validate_iff_example = validate_iff (manifest (edge ∷ []))

validate-FirstFault_example : FirstFault 0 (edge ∷ unselective ∷ []) (empty_node_selector 1 "all")
validate-FirstFault_example =
    validate-FirstFault (manifest (edge ∷ unselective ∷ [])) (empty_node_selector 1 "all")
      validate_tests.1 tt

distinct : NodupKeys edge.node_selector
unfolding lookup
distinct = (refl, (refl, tt))

is_subset-SubmapOf_example :
    (is_subset edge.node_selector labels ≡ true)
    ↔ ((edge.node_selector ≢ []) × SubmapOf edge.node_selector labels)
is_subset-SubmapOf_example =
    is_subset-SubmapOf edge.node_selector labels distinct
      (ground (arith, eq_iff "edge" "", eq_iff "prod" ""))
