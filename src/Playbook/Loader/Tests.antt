-- ===== src/Playbook/Loader/Tests.antt =====
-- Runs of the loader on a small disk, and its theorems there.
use helvilette.Prelude.{String, ◌≡◌, refl, ◌↔◌, ok, err, [], ◌∷◌, In}
use helvilette.Prelude.Dict.{lookup}
use helvilette.Playbook.Loader.{Entry, scan, get_playbook, load, unreadable_base_dir, new_loader}
use helvilette.Playbook.Loader.Sample.{entries, disk, loader, nginx, scanning, sample_scan}
use helvilette.Playbook.Loader.Laws.{IsPlaybookOf, scan_iff}
use helvilette.Playbook.Loader.Index.{get_playbook-scan}

load_test : load disk (scan disk (loader "/srv")).0 "ab01" ≡ ok "tasks"
unfolding scanning load get_playbook lookup
load_test = refl

failed_test : (scan disk (loader "/gone")).1 ≡ err (unreadable_base_dir "no such directory")
unfolding scan
failed_test = refl

new_loader_test : new_loader disk "/srv" ≡ ok (loader "/srv")
unfolding new_loader
new_loader_test = refl

scan_iff_example :
    In nginx (nginx ∷ []) ↔ ((e : Entry) × In e entries × IsPlaybookOf disk "/srv" e nginx)
scan_iff_example = scan_iff disk (loader "/srv") entries (nginx ∷ []) nginx refl sample_scan

get_playbook-scan_example :
    (get_playbook (scan disk (loader "/srv")).0 "ab01" ≡ ok nginx)
    ↔ (In nginx (nginx ∷ []) × (◌≡◌ {A = String} "ab01" "ab01"))
get_playbook-scan_example =
    get_playbook-scan disk (loader "/srv") (nginx ∷ []) "ab01" nginx sample_scan (tt, tt)
