-- ===== src/Storage.antt =====
-- pkg/storage/storage.go: the two interfaces of Othela's persistence, each over an unknown state,
-- and what an adapter owes to the handlers.
pub mod Memory
pub mod Sqlite
pub mod History
mod Tests
use helvilette.Prelude.{
  String, Bool, true, Option, none, some, Result, ok, List, [], ◌∷◌, ◌++◌, ◌≡◌, ◌==◌, if◌then◌else◌,
}
use helvilette.Prelude.Dict.{Dict, lookup}
use helvilette.Types.{Report}

-- `register` returns the new state and the error, if any; `get_labels` is `none` for `(_, false)`.
pub record NodeStore : Type 1 where
  pub State : Type 0
  pub register : State → String → Dict String → State × Option String
  pub get_labels : State → String → Option (Dict String)
  pub is_registered : State → String → Bool

pub record ReportStore : Type 1 where
  pub State : Type 0
  pub save : State → Report → State × Option String
  pub list : State → Result String (List Report)

-- The value of one label of one node.
abbrev pub label : (N : NodeStore) → N.State → String → String → Option String
label N s node key = elim (N.get_labels s node) [ none ↦ none | some l ↦ lookup key l ]

-- What an accepted registration changes, and that a refused one changes nothing.
pub record IsNodeStore (N : NodeStore) : Type 0 where
  pub registered :
      (s : N.State) (n : String) (l : Dict String) (m : String)
      → (N.register s n l).1 ≡ none
      → N.is_registered (N.register s n l).0 m ≡ (if n == m then true else N.is_registered s m)
  pub labelled :
      (s : N.State) (n : String) (l : Dict String) (m k : String)
      → (N.register s n l).1 ≡ none
      → label N (N.register s n l).0 m k ≡ (if n == m then lookup k l else label N s m k)
  pub refused :
      (s : N.State) (n : String) (l : Dict String) (e m : String)
      → (N.register s n l).1 ≡ some e
      → N.is_registered (N.register s n l).0 m ≡ N.is_registered s m
  pub refused_labels :
      (s : N.State) (n : String) (l : Dict String) (e m k : String)
      → (N.register s n l).1 ≡ some e
      → label N (N.register s n l).0 m k ≡ label N s m k

-- An accepted report is listed last, in the form in which the adapter stores it.
pub record IsReportStore (R : ReportStore) (stored : Report → Report) : Type 0 where
  pub listed :
      (s : R.State) (r : Report) (before : List Report)
      → (R.save s r).1 ≡ none
      → R.list s ≡ ok before
      → R.list (R.save s r).0 ≡ ok (before ++ stored r ∷ [])
