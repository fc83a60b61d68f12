-- ===== src/Othela/Process/Tests.antt =====
-- A run of the control plane's process whose database opens, and cannot be closed.
use helvilette.Prelude.{
  ℕ, String, ◌≡◌, ◌⊎◌, refl, none, some, ok, err, ◌==◌, if◌then◌else◌, List, [], ◌∷◌, Any,
}
use helvilette.FilePath.{join}
use helvilette.Playbook.Loader.Sample.{disk}
use helvilette.Storage.Sqlite.{Engine, new_sqlite_store}
use helvilette.Server.Sample.{decoder, mux, day}
use helvilette.Othela.{Flags, default_flags, signal}
use helvilette.Othela.RemovedFlag.{IsRemoved}
use helvilette.Othela.Process.{
  Parsed, help, misparsed, parsed, Life, Ended, refused, exit_status, othela_main,
}
use helvilette.Othela.Process.Laws.{opened, Served, othela_main-Closes}

abbrev engine : Engine
engine = record {
  Json = Unit {0};
  marshal = λ labels. ok tt;
  unmarshal = λ json. none;
  Db = Unit {0};
  mkdir_all = λ path. none;
  open_db = λ path. ok tt;
  exec_schema = λ db. (db, none);
  upsert_node = λ db n j. (db, none);
  select_labels = λ db n. none;
  select_one = λ db n. none;
  insert_report = λ db row. (db, none);
  select_reports = λ order db. err "no table";
}

abbrev parse : Flags → List String → Parsed
parse defaults [] = parsed defaults
parse defaults (arg ∷ args) =
    if arg == "--port"
    then parsed (record defaults { port = 81 })
    else if arg == "--help"
    then help
    else misparsed "unknown flag"

abbrev decimal : ℕ → String
decimal n = "81"

abbrev args : List String
args = "--port" ∷ "81" ∷ []

abbrev life : Life
life = record { served = day; wake = signal; drained = none; closing = some "busy" }

abbrev main : Ended
main = othela_main engine disk decoder mux decimal "" "0" parse args life

opened_test : opened engine default_flags ≡ "/var/lib/helvilette/othela/db/state.db" ∷ []
unfolding new_sqlite_store join
opened_test = refl

othela_main-Closes_example :
    (Any IsRemoved args × (exit_status main ≡ 1))
    ⊎ ((¬ Any IsRemoved args)
        × (((parse default_flags args ≡ help) × (exit_status main ≡ 0))
            ⊎ ((e : String) × (parse default_flags args ≡ misparsed e)
                × (main ≡ refused e)
                × (exit_status main ≡ 1))
            ⊎ ((flags : Flags) × (parse default_flags args ≡ parsed flags)
                × Served engine disk decoder mux decimal "" "0" parse args life flags)))
othela_main-Closes_example =
    othela_main-Closes engine disk decoder mux decimal "" "0" parse args life
