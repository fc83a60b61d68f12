-- ===== src/Manifest/Validation.antt =====
-- pkg/manifest/validation.go. An error is a value with the arguments of its message; `none` is
-- Go's nil.
pub mod Laws
use helvilette.Prelude.{ℕ, suc, String, Option, none, some, List, [], ◌∷◌, ◌==◌, not}
use helvilette.Prelude.{if◌then◌else◌}
use helvilette.Manifest.{Manifest, Spec, NodeGroup}

abbrev pub supported_api_version : String
supported_api_version = "helvilette.io/v1alpha1"

abbrev pub supported_kind : String
supported_kind = "PlaybookDeployment"

pub data Error : Type 0 where
  unsupported_api_version : String → Error
  unsupported_kind : String → Error
  empty_metadata_name : Error
  empty_repo : Error
  empty_playbook : Error
  no_node_groups : Error
  empty_group_name : ℕ → Error
  empty_node_selector : ℕ → String → Error

-- `if err := first; err != nil { return err }` before the rest.
infixr 6 ◌or_else◌
abbrev pub ◌or_else◌ : Option Error → Option Error → Option Error
none or_else e = e
some e or_else _ = some e

unfoldable pub validate_type_meta : Manifest → Option Error
validate_type_meta m =
    if not (m.api_version == supported_api_version)
    then some (unsupported_api_version m.api_version)
    else if not (m.kind == supported_kind)
    then some (unsupported_kind m.kind)
    else none

unfoldable pub validate_spec : Spec → Option Error
validate_spec spec =
    if spec.repo == ""
    then some empty_repo
    else if spec.playbook == ""
    then some empty_playbook
    else none

unfoldable pub validate_node_group : ℕ → NodeGroup → Option Error
validate_node_group index group =
    if group.name == "" then some (empty_group_name index) else elim group.node_selector [
      | [] ↦ some (empty_node_selector index group.name)
      | _ ∷ _ ↦ none
    ]

-- The loop of `validateNodeGroups`, from an index on.
validate_from : ℕ → List NodeGroup → Option Error
validate_from i [] = none
validate_from i (group ∷ groups) = validate_node_group i group or_else validate_from (suc i) groups

unfoldable pub validate_node_groups : List NodeGroup → Option Error
unfolding validate_from
validate_node_groups [] = some no_node_groups
validate_node_groups (group ∷ groups) = validate_from 0 (group ∷ groups)

unfoldable pub validate : Manifest → Option Error
validate m =
    validate_type_meta m
    or_else (if m.metadata.name == "" then some empty_metadata_name else none)
    or_else validate_spec m.spec
    or_else validate_node_groups m.spec.node_groups
