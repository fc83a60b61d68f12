-- ===== src/Storage/Sqlite.antt =====
-- pkg/storage/sqlite.go over an unknown SQL engine and JSON codec.
pub mod Laws
use Prim.Native.String.{◌++◌ as append}
use helvilette.Prelude.{
  String, Bool, true, false, Option, none, some, Result, ok, err, List, [], ◌∷◌, ◌==◌,
  if◌then◌else◌,
}
use helvilette.Prelude.Dict.{Dict}
use helvilette.Types.{Report}
use helvilette.Storage.{NodeStore, ReportStore}

-- A row of the query on reports.
pub record Row : Type 0 where
  pub node_id : String
  pub job_id : String
  pub status : String
  pub task_logs : String

-- The rows that `rows.Next` and `rows.Scan` give, and what `rows.Err` says at their end.
pub record Rows : Type 0 where
  pub scans : List (Result String Row)
  pub closing : Option String

-- The `ORDER BY` of that query, on the ids, which count the rows as they are inserted.
pub data Order : Type 0 where
  id_ascending id_descending : Order

-- The statements that the store runs, over an open database `Db`, with the JSON of `encoding/json`.
-- A failed `Exec` or `Query` has its message; a failed `QueryRow(...).Scan` is `none`.
pub record Engine : Type 1 where
  pub Json : Type 0
  pub marshal : Dict String → Result String Json
  pub unmarshal : Json → Option (Dict String)
  pub Db : Type 0
  pub mkdir_all : String → Option String
  pub open_db : String → Result String Db
  pub exec_schema : Db → Db × Option String
  pub upsert_node : Db → String → Json → Db × Option String
  pub select_labels : Db → String → Option Json
  pub select_one : Db → String → Option String
  pub insert_report : Db → Row → Db × Option String
  pub select_reports : Order → Db → Result String Rows

-- What the errors of the store wrap.
pub data Error : Type 0 where
  create_db_directory open_sqlite apply_schema : String → Error

abbrev pub SqliteStore : Engine → Type 0
SqliteStore E = E.Db

module _ (E : Engine) where
  open_store : String → Result Error (SqliteStore E)
  open_store db_path = elim (E.open_db (append db_path "?_journal_mode=WAL&_busy_timeout=5000")) [
    | err e ↦ err (open_sqlite e)
    | ok db ↦
        let (db', failure) = E.exec_schema db in
        elim failure [ none ↦ ok db' | some e ↦ err (apply_schema e) ]
  ]

  -- `NewSQLiteStore`; `dir` is `filepath.Dir`. A database whose schema failed is closed and dropped.
  unfoldable pub new_sqlite_store : (String → String) → String → Result Error (SqliteStore E)
  unfolding open_store
  new_sqlite_store dir db_path = elim (E.mkdir_all (dir db_path)) [
    | some e ↦ err (create_db_directory e)
    | none ↦ open_store db_path
  ]

  -- A failed `Marshal` returns before the statement is run.
  unfoldable pub register : SqliteStore E → String → Dict String → SqliteStore E × Option String
  register s node_id labels = elim (E.marshal labels) [
    | err e ↦ (s, some e)
    | ok labels_json ↦ E.upsert_node s node_id labels_json
  ]

  unfoldable pub get_labels : SqliteStore E → String → Option (Dict String)
  get_labels s node_id = elim (E.select_labels s node_id) [
    | none ↦ none
    | some labels_json ↦ E.unmarshal labels_json
  ]

  unfoldable pub is_registered : SqliteStore E → String → Bool
  is_registered s node_id = elim (E.select_one s node_id) [ none ↦ false | some _ ↦ true ]

-- The row of a report: an empty log is stored as an empty JSON object.
abbrev pub report_row : Report → Row
report_row r = record {
  node_id = r.node_id;
  job_id = r.job_id;
  status = r.status;
  task_logs = if r.task_logs == "" then "{}" else r.task_logs;
}

abbrev pub row_report : Row → Report
row_report row = record {
  node_id = row.node_id;
  job_id = row.job_id;
  status = row.status;
  task_logs = row.task_logs;
}

-- The loop of `List`: it stops at the first row that cannot be scanned.
unfoldable pub scan_rows : List (Result String Row) → Option String → Result String (List Report)
scan_rows [] (some e) = err e
scan_rows [] none = ok []
scan_rows (err e ∷ scans) closing = err e
scan_rows (ok row ∷ scans) closing = elim (scan_rows scans closing) [
  | err e ↦ err e
  | ok reports ↦ ok (row_report row ∷ reports)
]

module _ (E : Engine) where
  unfoldable pub save : SqliteStore E → Report → SqliteStore E × Option String
  save s report = E.insert_report s (report_row report)

  unfoldable pub list : SqliteStore E → Result String (List Report)
  list s = elim (E.select_reports id_ascending s) [
    | err e ↦ err e
    | ok rows ↦ scan_rows rows.scans rows.closing
  ]

abbrev pub sqlite_nodes : Engine → NodeStore
sqlite_nodes E = record {
  State = SqliteStore E;
  register = register E;
  get_labels = get_labels E;
  is_registered = is_registered E;
}

abbrev pub sqlite_reports : Engine → ReportStore
sqlite_reports E = record { State = SqliteStore E; save = save E; list = list E }
