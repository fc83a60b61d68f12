-- ===== src/Agent/Config/Parse.antt =====
-- What `parseLabels` of cmd/agent/main.go gives.
use helvilette.Prelude.{String, ◌≡◌, refl, Option, none, some, List, [], ◌∷◌}
use helvilette.Prelude.Dict.{Dict, NodupKeys, insert-NodupKeys}
use helvilette.Prelude.Text.{split, cut, trim_space}
use helvilette.Agent.Config.{add_pair, add_pairs, parse_labels}

pub parse_labels-nil : parse_labels "" ≡ []
unfolding parse_labels split cut
parse_labels-nil = refl

add_pair-NodupKeys :
    (pair : Option (String × String)) (labels : Dict String)
    → NodupKeys labels
    → NodupKeys (add_pair pair labels)
unfolding add_pair
add_pair-NodupKeys none labels u = u
add_pair-NodupKeys (some (k, v)) labels u = insert-NodupKeys (trim_space k) (trim_space v) labels u

add_pairs-NodupKeys :
    (pairs : List String) (labels : Dict String)
    → NodupKeys labels
    → NodupKeys (add_pairs pairs labels)
unfolding add_pairs
add_pairs-NodupKeys [] labels u = u
add_pairs-NodupKeys (pair ∷ pairs) labels u =
    add_pairs-NodupKeys pairs (add_pair (cut b'=' pair) labels)
      (add_pair-NodupKeys (cut b'=' pair) labels u)

pub parse_labels-NodupKeys : (s : String) → NodupKeys (parse_labels s)
unfolding parse_labels
parse_labels-NodupKeys s = add_pairs-NodupKeys (split b',' s) [] tt
