-- ===== src/Storage/Sqlite/Laws.antt =====
-- What the SQLite store of pkg/storage/sqlite.go relies on, and what it owes as a store.
use mathlib.Core.List.{map-append}
use helvilette.Prelude.{
  ap, sym, ◌∙◌, String, true, Option, none, some, Result, ok, err, List, [], ◌∷◌, ◌++◌, ◌≡◌, refl,
  ◌==◌, arith, inl, inr, Result-cases, map, if◌then◌else◌,
}
use helvilette.Prelude.Dict.{Dict, lookup}
use helvilette.Types.{Report}
use helvilette.Storage.{label, IsNodeStore, IsReportStore}
use helvilette.Storage.Sqlite.{
  Engine, Row, Rows, id_ascending, report_row, row_report, scan_rows, register, get_labels,
  is_registered, save, list, sqlite_nodes, sqlite_reports,
}

abbrev pub all_ok : List Row → List (Result String Row)
all_ok [] = []
all_ok (row ∷ rows) = ok row ∷ all_ok rows

-- Rows that all scan, in a query that ends without an error.
abbrev pub scanned : List Row → Rows
scanned rows = record { scans = all_ok rows; closing = none }

-- What SQLite and encoding/json document of the statements and calls that the store makes.
pub record IsSqlite (E : Engine) : Type 0 where
  -- What was marshalled from a map of strings reads back with the same entries.
  pub unmarshalled :
      (l : Dict String) (j : E.Json)
      → E.marshal l ≡ ok j
      → (l' : Dict String) × (E.unmarshal j ≡ some l') × ((k : String) → lookup k l' ≡ lookup k l)
  -- The upsert writes the row of its key, and no other.
  pub upserted :
      (db : E.Db) (n : String) (j : E.Json) (m : String)
      → (E.upsert_node db n j).1 ≡ none
      → E.select_labels (E.upsert_node db n j).0 m
        ≡ (if n == m then some j else E.select_labels db m)
  pub row_exists :
      (db : E.Db) (n : String) (j : E.Json) (m : String)
      → (E.upsert_node db n j).1 ≡ none
      → E.select_one (E.upsert_node db n j).0 m ≡ (if n == m then some "1" else E.select_one db m)
  -- A statement that fails has changed nothing.
  pub not_upserted :
      (db : E.Db) (n : String) (j : E.Json) (e : String)
      → (E.upsert_node db n j).1 ≡ some e
      → (E.upsert_node db n j).0 ≡ db
  -- The new row has the greatest id, so it comes last where the ids ascend.
  pub inserted :
      (db : E.Db) (row : Row) (rows : List Row)
      → (E.insert_report db row).1 ≡ none
      → E.select_reports id_ascending db ≡ ok (scanned rows)
      → E.select_reports id_ascending (E.insert_report db row).0 ≡ ok (scanned (rows ++ row ∷ []))

scan_rows-ok :
    (scans : List (Result String Row)) (closing : Option String) (reports : List Report)
    → scan_rows scans closing ≡ ok reports
    → (rows : List Row) × (scans ≡ all_ok rows) × (closing ≡ none) × (reports ≡ map row_report rows)
unfolding scan_rows
scan_rows-ok [] none reports h = ([], refl, refl, cc)
scan_rows-ok [] (some e) reports h = absurd (cc)
scan_rows-ok (err e ∷ scans) closing reports h = absurd (cc)
scan_rows-ok (ok row ∷ scans) closing reports h = elim (Result-cases (scan_rows scans closing)) [
  | inl (e, failed) ↦ absurd (ground (arith))
  | inr (later, scanned) ↦
      let (rows, all, closed, same) = scan_rows-ok scans closing later scanned in
      (row ∷ rows, rw all, closed, ground arith)
]

scan_rows-all_ok : (rows : List Row) → scan_rows (all_ok rows) none ≡ ok (map row_report rows)
unfolding scan_rows
scan_rows-all_ok [] = refl
scan_rows-all_ok (row ∷ rows) = rw (scan_rows-all_ok rows)

module _ (E : Engine) (q : IsSqlite E) (s : E.Db) (n : String) (l : Dict String) (m : String) where
  registered :
      (register E s n l).1 ≡ none
      → is_registered E (register E s n l).0 m ≡ (if n == m then true else is_registered E s m)
  unfolding register is_registered
  registered h = elim (Result-cases (E.marshal l)) [
    | inl (e, failed) ↦ absurd (ground arith)
    | inr (j, done) ↦ ground (arith, q.row_exists s n j m)
  ]

  labelled :
      (k : String)
      → (register E s n l).1 ≡ none
      → label (sqlite_nodes E) (register E s n l).0 m k
        ≡ (if n == m then lookup k l else label (sqlite_nodes E) s m k)
  unfolding register get_labels
  labelled k h = elim (Result-cases (E.marshal l)) [
    | inl (e, failed) ↦ absurd (ground arith)
    | inr (j, done) ↦
        let (l', decoded, same) = q.unmarshalled l j done in
        ground (arith, q.upserted s n j m, same k)
  ]

  -- A registration that fails, in the codec or in the statement, leaves the database as it was.
  register_refused : (e : String) → (register E s n l).1 ≡ some e → (register E s n l).0 ≡ s
  unfolding register
  register_refused e h = elim (Result-cases (E.marshal l)) [
    | inl (e', failed) ↦ ground arith
    | inr (j, done) ↦ ground (arith, q.not_upserted s n j e)
  ]

-- Over an engine whose statements and JSON do what SQLite documents, the SQLite adapter of nodes keeps
-- what the handlers need of a node store: registering changes one node, and a refusal changes none.
pub sqlite_nodes-IsNodeStore : (E : Engine) → IsSqlite E → IsNodeStore (sqlite_nodes E)
sqlite_nodes-IsNodeStore E q = record {
  registered = registered E q;
  labelled = labelled E q;
  refused = λ s n l e m h. ap (λ t. is_registered E t m) (register_refused E q s n l m e h);
  refused_labels =
      λ s n l e m k h. ap (λ t. label (sqlite_nodes E) t m k) (register_refused E q s n l m e h);
}

-- The form in which a report is read back: an empty log as "{}".
abbrev pub stored : Report → Report
stored r = record {
  node_id = r.node_id;
  job_id = r.job_id;
  status = r.status;
  task_logs = if r.task_logs == "" then "{}" else r.task_logs;
}

row_report-report_row : (r : Report) → row_report (report_row r) ≡ stored r
row_report-report_row r = refl

list_of_scanned :
    (E : Engine) (s : E.Db) (rows : List Row)
    → E.select_reports id_ascending s ≡ ok (scanned rows)
    → list E s ≡ ok (map row_report rows)
unfolding list
list_of_scanned E s rows h = ground (arith, scan_rows-all_ok rows)

scanned_of_list :
    (E : Engine) (s : E.Db) (reports : List Report)
    → list E s ≡ ok reports
    → (rows : List Row) × (E.select_reports id_ascending s ≡ ok (scanned rows))
      × (reports ≡ map row_report rows)
unfolding list
scanned_of_list E s reports h = elim (Result-cases (E.select_reports id_ascending s)) [
  | inl (e, failed) ↦ absurd (ground arith)
  | inr (found, queried) ↦
      let (rows, all, closed, same) =
        scan_rows-ok found.scans found.closing reports (ground arith) in
      (rows, ground arith, same)
]

list-save :
    (E : Engine) (q : IsSqlite E) (s : E.Db) (r : Report) (before : List Report)
    → (save E s r).1 ≡ none
    → list E s ≡ ok before
    → list E (save E s r).0 ≡ ok (before ++ stored r ∷ [])
unfolding save
list-save E q s r before saved h =
    let (rows, queried, same) = scanned_of_list E s before h in
    let row = report_row r in
    list_of_scanned E (save E s r).0 (rows ++ row ∷ []) (q.inserted s row rows saved queried)
    ∙ ap ok (
        map-append row_report rows (row ∷ [])
        ∙ ap (λ x. map row_report rows ++ x ∷ []) (row_report-report_row r)
        ∙ ap (λ l. l ++ stored r ∷ []) (sym same))

-- Over an engine whose statements do what SQLite documents, a report that the SQLite adapter saves
-- without an error is listed last, behind those it listed before, with its node, job and status,
-- and with its task log, but for an empty one, which is listed as an empty JSON object.
pub sqlite_reports-IsReportStore :
    (E : Engine) → IsSqlite E → IsReportStore (sqlite_reports E) stored
sqlite_reports-IsReportStore E q = record { listed = list-save E q }
