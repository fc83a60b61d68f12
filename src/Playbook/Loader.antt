-- ===== src/Playbook/Loader.antt =====
-- pkg/playbook/loader.go. What the file system holds when a method runs is its argument.
pub mod Laws
pub mod Index
pub mod Sample
mod Tests
use Prim.Native.String
use helvilette.Prelude.{
  ℕ, String, Bool, true, false, Option, none, some, Result, ok, err, List, [], ◌∷◌, ◌++◌, ◌==◌,
  ◌||◌, not, is_char, if◌then◌else◌,
}
use helvilette.Prelude.Dict.{Dict, lookup, insert}
use helvilette.FilePath.{join}
use helvilette.Manifest.{Manifest}
use helvilette.Manifest.Parser.{ReadError, parse_file}
use helvilette.Playbook.{Playbook, generate_id}

-- `os.DirEntry`
pub record Entry : Type 0 where
  pub name : String
  pub is_dir : Bool

-- The disk as the `os` calls see it, the YAML decoder and the hash. `stat` gives the time of the
-- last change, and `none` for an error.
pub record Disk : Type 0 where
  pub abs : String → Result String String
  pub stat_is_dir : String → Result String Bool
  pub read_dir : String → Result String (List Entry)
  pub stat : String → Option ℕ
  pub read_file : String → Result ReadError String
  pub unmarshal : String → Result String Manifest
  pub sha256 : String → List ℕ

pub data Error : Type 0 where
  unresolved no_base_dir not_a_directory unreadable_base_dir : String → Error
  not_found : Error
  unreadable_playbook : ReadError → Error

pub record Loader : Type 0 where
  pub base_dir : String
  pub playbooks : Dict Playbook

validate_base_dir : Disk → String → Result Error String
validate_base_dir disk base_dir = elim (disk.abs base_dir) [
  | err e ↦ err (unresolved e)
  | ok abs_path ↦ elim (disk.stat_is_dir abs_path) [
    | err e ↦ err (no_base_dir e)
    | ok is_dir ↦ if is_dir then ok abs_path else err (not_a_directory abs_path)
  ]
]

unfoldable pub new_loader : Disk → String → Result Error Loader
unfolding validate_base_dir
new_loader disk base_dir = elim (validate_base_dir disk base_dir) [
  | err e ↦ err e
  | ok abs_path ↦ ok (record { base_dir = abs_path; playbooks = [] })
]

-- `name[0] == '.'`; `os.ReadDir` gives no empty name.
abbrev pub is_hidden : String → Bool
is_hidden String.[] = false
is_hidden (String.◌∷◌ c s) = is_char b'.' c

abbrev pub should_skip_entry : Entry → Bool
should_skip_entry entry = not entry.is_dir || is_hidden entry.name

-- A manifest that is missing and one that is rejected both count as none.
unfoldable pub load_manifest : Disk → String → String → Option Manifest
load_manifest disk base_dir dir_name =
    elim (parse_file disk.read_file disk.unmarshal
      (join (base_dir ∷ dir_name ∷ "helvilette.yml" ∷ []))) [ ok m ↦ some m | err e ↦ none ]

unfoldable pub build_playbook : Disk → String → String → ℕ → Option Manifest → Playbook
build_playbook disk dir_name playbook_path mod_time m = record {
  id = generate_id disk.sha256 dir_name;
  name = dir_name;
  path = dir_name;
  full_path = playbook_path;
  mod_time = mod_time;
  manifest = m;
}

abbrev pub playbook_path : String → String → String
playbook_path base_dir dir_name = join (base_dir ∷ dir_name ∷ "playbook.yml" ∷ [])

unfoldable pub inspect_dir_entry : Disk → String → Entry → Option Playbook
inspect_dir_entry disk base_dir entry =
    if should_skip_entry entry then none else elim (disk.stat (playbook_path base_dir entry.name)) [
      | none ↦ none
      | some mod_time ↦ some (
          build_playbook disk entry.name (playbook_path base_dir entry.name) mod_time
            (load_manifest disk base_dir entry.name))
    ]

-- The loop of `Scan`, over the index and the result so far.
unfoldable pub scan_entries :
    Disk → String → Dict Playbook → List Playbook → List Entry → Dict Playbook × List Playbook
scan_entries disk base_dir index result [] = (index, result)
scan_entries disk base_dir index result (entry ∷ entries) =
    elim (inspect_dir_entry disk base_dir entry) [
      | none ↦ scan_entries disk base_dir index result entries
      | some pb ↦ scan_entries disk base_dir (insert pb.id pb index) (result ++ pb ∷ []) entries
    ]

unfoldable pub scan : Disk → Loader → Loader × Result Error (List Playbook)
scan disk l = elim (disk.read_dir l.base_dir) [
  | err e ↦ (record l { playbooks = [] }, err (unreadable_base_dir e))
  | ok entries ↦
      let (index, result) = scan_entries disk l.base_dir [] [] entries in
      (record l { playbooks = index }, ok result)
]

-- `Get` is named `get_playbook`, since Prelude/Dict has a `get`.
unfoldable pub get_playbook : Loader → String → Result Error Playbook
get_playbook l id = elim (lookup id l.playbooks) [ none ↦ err not_found | some pb ↦ ok pb ]

unfoldable pub load : Disk → Loader → String → Result Error String
load disk l id = elim (get_playbook l id) [
  | err e ↦ err e
  | ok pb ↦ elim (disk.read_file pb.full_path) [
    | err e ↦ err (unreadable_playbook e)
    | ok content ↦ ok content
  ]
]

-- The loop of `GetByName` over the index.
find_name : String → Dict Playbook → Result Error Playbook
find_name name [] = err not_found
find_name name ((id, pb) ∷ index) = if pb.name == name then ok pb else find_name name index

unfoldable pub get_by_name : Loader → String → Result Error Playbook
unfolding find_name
get_by_name l name = find_name name l.playbooks
