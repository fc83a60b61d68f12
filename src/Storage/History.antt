-- ===== src/Storage/History.antt =====
-- A node store of pkg/storage, whatever the adapter, after a history of registrations.
use helvilette.Prelude.{
  String, Bool, true, Option, none, some, List, [], ◌∷◌, ◌≡◌, refl, ◌==◌, arith, if◌then◌else◌,
}
use helvilette.Prelude.Dict.{Dict, lookup}
use helvilette.Storage.{NodeStore, label, IsNodeStore}

abbrev pub Registration : Type 0
Registration = String × Dict String

-- The labels of a node's last registration, oldest registration first.
unfoldable pub last_labels : List Registration → String → Option (Dict String)
last_labels [] node = none
last_labels ((n, l) ∷ history) node = elim (last_labels history node) [
  | some later ↦ some later
  | none ↦ if n == node then some l else none
]

module _ (N : NodeStore) where
  unfoldable pub register_all : N.State → List Registration → N.State
  register_all s [] = s
  register_all s ((n, l) ∷ history) = register_all (N.register s n l).0 history

  -- The store accepts each registration of the history in turn.
  abbrev pub Accepts : N.State → List Registration → Type 0
  Accepts s [] = Unit
  Accepts s ((n, l) ∷ history) =
      ((N.register s n l).1 ≡ none) × Accepts (N.register s n l).0 history

abbrev pub known : Option (Dict String) → Bool → Bool
known none before = before
known (some _) before = true

abbrev pub read : Option (Dict String) → String → Option String → Option String
read none key before = before
read (some l) key before = lookup key l

-- After a history of accepted registrations a node is registered if it was before or occurs in the
-- history, and each of its labels reads as in its last registration there, or as before if none.
pub register_all_lem :
    (N : NodeStore) (lawful : IsNodeStore N) (s : N.State) (history : List Registration)
    (node key : String)
    → Accepts N s history
    → (N.is_registered (register_all N s history) node
        ≡ known (last_labels history node) (N.is_registered s node))
      × (label N (register_all N s history) node key
          ≡ read (last_labels history node) key (label N s node key))
unfolding register_all last_labels
register_all_lem N lawful s [] node key _ = (refl, refl)
register_all_lem N lawful s ((n, l) ∷ history) node key (accepted, rest) =
    let (there, value) = register_all_lem N lawful (N.register s n l).0 history node key rest in
    let here = lawful.registered s n l node accepted in
    let labelled = lawful.labelled s n l node key accepted in
    ground (arith, there, value, here, labelled)
