-- ===== src/Storage/Tests.antt =====
-- The theorems on the adapters at concrete stores. The SQLite engine of the tests keeps its rows in
-- memory, and its JSON documents are the maps themselves.
use mathlib.Core.Path.{ap₂}
use helvilette.Prelude.{
  ap, String, Option, none, some, Result, ok, List, [], ◌∷◌, ◌++◌, ◌≡◌, refl, ◌==◌, arith,
  if◌then◌else◌,
}
use helvilette.Prelude.Dict.{Dict, lookup, insert, lookup-insert}
use helvilette.Types.{Report}
use helvilette.Storage.{IsNodeStore, IsReportStore}
use helvilette.Storage.Sqlite.{
  Engine, Row, Rows, Order, id_ascending, id_descending, sqlite_nodes, sqlite_reports, list, save,
  scan_rows,
}
use helvilette.Storage.Sqlite.Laws.{
  IsSqlite, all_ok, scanned, stored, sqlite_nodes-IsNodeStore, sqlite_reports-IsReportStore,
}
use helvilette.Storage.History.{Registration, last_labels}

record Tables : Type 0 where
  nodes : Dict (Dict String)
  reports : List Row

abbrev exists : Option (Dict String) → Option String
exists none = none
exists (some _) = some "1"

abbrev in_order : Order → List Row → List Row
in_order id_ascending rows = rows
in_order id_descending [] = []
in_order id_descending (row ∷ rows) = in_order id_descending rows ++ row ∷ []

abbrev tables : Engine
tables = record {
  Json = Dict String;
  marshal = ok;
  unmarshal = some;
  Db = Tables;
  mkdir_all = λ _. none;
  open_db = λ _. ok (record { nodes = []; reports = [] });
  exec_schema = λ db. (db, none);
  upsert_node = λ db n j. (record { nodes = insert n j db.nodes; reports = db.reports }, none);
  select_labels = λ db n. lookup n db.nodes;
  select_one = λ db n. exists (lookup n db.nodes);
  insert_report = λ db row. (record { nodes = db.nodes; reports = db.reports ++ row ∷ [] }, none);
  select_reports = λ order db. ok (scanned (in_order order db.reports));
}

exists-insert :
    (n m : String) (l : Dict String) (nodes : Dict (Dict String))
    → exists (lookup m (insert n l nodes)) ≡ (if n == m then some "1" else exists (lookup m nodes))
exists-insert n m l nodes = ground (arith, lookup-insert n m l nodes)

all_ok-injective : (xs ys : List Row) → all_ok xs ≡ all_ok ys → xs ≡ ys
all_ok-injective [] [] h = refl
all_ok-injective [] (y ∷ ys) h = absurd (cc)
all_ok-injective (x ∷ xs) [] h = absurd (cc)
all_ok-injective (x ∷ xs) (y ∷ ys) h =
    let same : x ≡ y = cc in
    let rest : all_ok xs ≡ all_ok ys = cc in
    ap₂ {A = Row} {B = List Row} ◌∷◌ same (all_ok-injective xs ys rest)

scanned-injective :
    (xs ys : List Row) → ◌≡◌ {A = Result String Rows} (ok (scanned xs)) (ok (scanned ys)) → xs ≡ ys
scanned-injective xs ys h =
    let same : scanned xs ≡ scanned ys = cc in
    all_ok-injective xs ys (ap (λ (r : Rows). r.scans) same)

tables-IsSqlite : IsSqlite tables
tables-IsSqlite = record {
  unmarshalled = λ l j h. (l, cc, λ k. refl);
  upserted = λ db n j m _. lookup-insert n m j db.nodes;
  row_exists = λ db n j m _. exists-insert n m j db.nodes;
  not_upserted = λ db n j e h. absurd (cc);
  inserted = λ db row rows _ h.
      ap (λ rs. ok (scanned (rs ++ row ∷ []))) (scanned-injective db.reports rows h);
}

sqlite_nodes-IsNodeStore_example : IsNodeStore (sqlite_nodes tables)
sqlite_nodes-IsNodeStore_example = sqlite_nodes-IsNodeStore tables tables-IsSqlite

sqlite_reports-IsReportStore_example : IsReportStore (sqlite_reports tables) stored
sqlite_reports-IsReportStore_example = sqlite_reports-IsReportStore tables tables-IsSqlite

abbrev history : List Registration
history = ("a", ("role", "web") ∷ []) ∷ ("b", []) ∷ ("a", ("role", "db") ∷ []) ∷ []

last_labels_tests :
    (last_labels history "a" ≡ some (("role", "db") ∷ [])) × (last_labels history "c" ≡ none)
unfolding last_labels
last_labels_tests = (refl, refl)

abbrev silent : Report
silent = record { node_id = "a"; job_id = "j"; status = "Success"; task_logs = "" }

list_test :
    list tables (save tables (record { nodes = []; reports = [] }) silent).0
    ≡ ok (record silent { task_logs = "{}" } ∷ [])
unfolding list save scan_rows
list_test = refl
