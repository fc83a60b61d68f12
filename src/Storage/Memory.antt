-- ===== src/Storage/Memory.antt =====
-- pkg/storage/memory.go. A method holds the store's lock from its first line to its last, so each
-- is one step. The store keeps the caller's map itself; no caller changes it afterwards.
use helvilette.Prelude.{
  String, Bool, true, false, Option, none, some, Result, ok, List, [], ◌∷◌, ◌++◌, ◌≡◌, ◌≢◌, ◌==◌,
  arith, if◌then◌else◌,
}
use helvilette.Prelude.Dict.{Dict, lookup, insert, lookup-insert}
use helvilette.Types.{Report}
use helvilette.Storage.{NodeStore, ReportStore, label, IsNodeStore, IsReportStore}

pub record MemoryNodeStore : Type 0 where
  pub nodes : Dict (Dict String)

abbrev pub new_memory_node_store : MemoryNodeStore
new_memory_node_store = record { nodes = [] }

unfoldable pub register : MemoryNodeStore → String → Dict String → MemoryNodeStore × Option String
register s node_id labels = (record s { nodes = insert node_id labels s.nodes }, none)

unfoldable pub get_labels : MemoryNodeStore → String → Option (Dict String)
get_labels s node_id = lookup node_id s.nodes

abbrev is_some {ℓ} : {A : Type ℓ} → Option A → Bool
is_some none = false
is_some (some _) = true

unfoldable pub is_registered : MemoryNodeStore → String → Bool
is_registered s node_id = is_some (lookup node_id s.nodes)

pub record MemoryReportStore : Type 0 where
  pub reports : List Report

abbrev pub new_memory_report_store : MemoryReportStore
new_memory_report_store = record { reports = [] }

unfoldable pub save : MemoryReportStore → Report → MemoryReportStore × Option String
save s report = (record s { reports = s.reports ++ report ∷ [] }, none)

unfoldable pub list : MemoryReportStore → Result String (List Report)
list s = ok s.reports

abbrev pub memory_nodes : NodeStore
memory_nodes = record {
  State = MemoryNodeStore;
  register = register;
  get_labels = get_labels;
  is_registered = is_registered;
}

abbrev pub memory_reports : ReportStore
memory_reports = record { State = MemoryReportStore; save = save; list = list }

is_registered-register :
    (s : MemoryNodeStore) (n : String) (l : Dict String) (m : String)
    → is_registered (register s n l).0 m ≡ (if n == m then true else is_registered s m)
unfolding is_registered register
is_registered-register s n l m = ground (arith, lookup-insert n m l s.nodes)

label-register :
    (s : MemoryNodeStore) (n : String) (l : Dict String) (m k : String)
    → label memory_nodes (register s n l).0 m k
      ≡ (if n == m then lookup k l else label memory_nodes s m k)
unfolding get_labels register
label-register s n l m k = ground (arith, lookup-insert n m l s.nodes)

register-ne-error :
    (s : MemoryNodeStore) (n : String) (l : Dict String) (e : String) → (register s n l).1 ≢ some e
unfolding register
register-ne-error s n l e h = cc

-- The memory adapter of nodes keeps what the handlers need of a node store.
pub memory_nodes-IsNodeStore : IsNodeStore memory_nodes
memory_nodes-IsNodeStore = record {
  registered = λ s n l m _. is_registered-register s n l m;
  labelled = λ s n l m k _. label-register s n l m k;
  refused = λ s n l e m h. absurd (register-ne-error s n l e h);
  refused_labels = λ s n l e m k h. absurd (register-ne-error s n l e h);
}

list-save :
    (s : MemoryReportStore) (r : Report) (before : List Report)
    → list s ≡ ok before
    → list (save s r).0 ≡ ok (before ++ r ∷ [])
unfolding list save
list-save s r before h = cc

-- The memory adapter of reports lists each report as it was saved, in the order of arrival.
pub memory_reports-IsReportStore : IsReportStore memory_reports (λ r. r)
memory_reports-IsReportStore = record { listed = λ s r before _ h. list-save s r before h }
