-- ===== src/Manifest/Matching.antt =====
-- pkg/manifest/parser.go: which node groups a node's labels select.
pub mod Laws
pub mod First
pub mod Same
use helvilette.Prelude.{String, Bool, true, false, List, [], ◌∷◌, ◌==◌, if◌then◌else◌}
use helvilette.Prelude.Dict.{Dict, get}
use helvilette.Manifest.{Manifest, NodeGroup}

-- The loop of `isSubset`.
unfoldable pub has_all : Dict String → Dict String → Bool
unfolding get
has_all [] labels = true
has_all ((k, v) ∷ selector) labels = if get labels k == v then has_all selector labels else false

unfoldable pub is_subset : Dict String → Dict String → Bool
unfolding has_all
is_subset [] labels = false
is_subset (entry ∷ selector) labels = has_all (entry ∷ selector) labels

-- The loop of `MatchNodeGroups`.
unfoldable pub matching : List NodeGroup → Dict String → List NodeGroup
matching [] labels = []
matching (group ∷ groups) labels =
    let rest = matching groups labels in
    if is_subset group.node_selector labels then group ∷ rest else rest

unfoldable pub match_node_groups : Manifest → Dict String → List NodeGroup
unfolding is_subset matching
match_node_groups manifest labels = matching manifest.spec.node_groups labels
