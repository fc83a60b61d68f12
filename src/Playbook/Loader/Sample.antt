-- ===== src/Playbook/Loader/Sample.antt =====
-- A small disk for the tests: one playbook with a manifest, beside entries that are skipped.
use helvilette.Prelude.{
  String, ◌≡◌, refl, true, false, none, some, Result, ok, err, List, [], ◌∷◌, ◌==◌, if◌then◌else◌,
}
use helvilette.Prelude.Dict.{insert}
use helvilette.FilePath.{join}
use helvilette.Manifest.{Manifest}
use helvilette.Manifest.Parser.{ReadError, not_exist, parse_file}
use helvilette.Manifest.Validation.{
  supported_api_version, supported_kind, validate, validate_type_meta, validate_spec,
  validate_node_group, validate_node_groups,
}
use helvilette.Playbook.{Playbook, generate_id}
use helvilette.Playbook.Loader.{
  Entry, Disk, Loader, load_manifest, build_playbook, inspect_dir_entry, scan_entries, scan,
}

abbrev pub sample_manifest : Manifest
sample_manifest = record {
  api_version = supported_api_version;
  kind = supported_kind;
  metadata = record { name = "fleet"; namespace = ""; labels = []; description = "" };
  spec = record {
    repo = "repo.git";
    branch = "main";
    playbook = "site.yml";
    node_groups =
        record {
          name = "edge";
          node_selector = ("role", "edge") ∷ [];
          ansible = record { vault_password_file = ""; extra_vars = [] };
        }
        ∷ [];
  };
}

abbrev pub content : String → Result ReadError String
content path =
    if path == "/srv/nginx/helvilette.yml"
    then ok "manifest"
    else if path == "/srv/nginx/playbook.yml"
    then ok "tasks"
    else err not_exist

abbrev pub entry : String → Entry
entry name = record { name = name; is_dir = true }

abbrev pub entries : List Entry
entries =
    entry ".git" ∷ entry "nginx" ∷ entry "empty" ∷ record { name = "x.yml"; is_dir = false } ∷ []

abbrev pub disk : Disk
disk = record {
  abs = ok;
  stat_is_dir = λ path. ok (path == "/srv");
  read_dir = λ path. if path == "/srv" then ok entries else err "no such directory";
  stat = λ path. if path == "/srv/nginx/playbook.yml" then some 7 else none;
  read_file = content;
  unmarshal = λ text. ok sample_manifest;
  sha256 = λ path. 0xab ∷ 0x01 ∷ [];
}

abbrev pub loader : String → Loader
loader base_dir = record { base_dir = base_dir; playbooks = [] }

abbrev pub nginx : Playbook
nginx = record {
  id = "ab01";
  name = "nginx";
  path = "nginx";
  full_path = "/srv/nginx/playbook.yml";
  mod_time = 7;
  manifest = some sample_manifest;
}

-- Unfolding this opens all that a scan calls.
unfoldable pub scanning : Unit {0}
unfolding scan scan_entries inspect_dir_entry build_playbook generate_id load_manifest parse_file
    validate validate_type_meta validate_spec validate_node_group validate_node_groups join insert
scanning = tt

pub sample_scan : (scan disk (loader "/srv")).1 ≡ ok (nginx ∷ [])
unfolding scanning
sample_scan = refl
