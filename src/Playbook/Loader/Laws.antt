-- ===== src/Playbook/Loader/Laws.antt =====
-- What `Scan` returns.
use mathlib.Core.List.{append_assoc, append-nil}
use helvilette.Prelude.{
  ℕ, String, ◌≡◌, refl, sym, ap, ◌∙◌, ◌↔◌, true, false, none, some, Option-cases, ok, Result-cases,
  inl, inr, List, [], ◌∷◌, ◌++◌, In, arith,
}
use helvilette.Prelude.Dict.{Dict, insert}
use helvilette.FilePath.{join}
use helvilette.Manifest.{Manifest}
use helvilette.Manifest.Parser.{parse_file}
use helvilette.Manifest.Parser.Laws.{parse_file_iff}
use helvilette.Manifest.Validation.Laws.{IsDispatchable}
use helvilette.Playbook.{Playbook}
use helvilette.Playbook.Loader.{
  Entry, Disk, Loader, is_hidden, load_manifest, build_playbook, playbook_path, inspect_dir_entry,
  scan_entries, scan,
}

-- The entry is a directory, not hidden, with a playbook.yml, and the playbook describes it.
pub record IsPlaybookOf (disk : Disk) (base_dir : String) (e : Entry) (pb : Playbook) : Type 0 where
  pub directory : e.is_dir ≡ true
  pub visible : is_hidden e.name ≡ false
  pub mod_time : ℕ
  pub stat : disk.stat (playbook_path base_dir e.name) ≡ some mod_time
  pub built :
      pb
      ≡ build_playbook disk e.name
          (playbook_path base_dir e.name)
          mod_time
          (load_manifest disk base_dir e.name)

module _ (disk : Disk) (base_dir : String) where
  inspect-IsPlaybookOf :
      (e : Entry) (pb : Playbook)
      → inspect_dir_entry disk base_dir e ≡ some pb
      → IsPlaybookOf disk base_dir e pb
  unfolding inspect_dir_entry
  inspect-IsPlaybookOf e pb h = elim (Option-cases (disk.stat (playbook_path base_dir e.name))) [
    | inl missing ↦ absurd (ground arith)
    | inr (t, found) ↦ record {
      directory = ground arith;
      visible = ground arith;
      mod_time = t;
      stat = found;
      built = ground arith;
    }
  ]

  inspect_of_IsPlaybookOf :
      (e : Entry) (pb : Playbook)
      → IsPlaybookOf disk base_dir e pb
      → inspect_dir_entry disk base_dir e ≡ some pb
  unfolding inspect_dir_entry
  inspect_of_IsPlaybookOf e pb h = ground arith

  -- The playbooks of the entries, in their order.
  unfoldable pub discovered : List Entry → List Playbook
  discovered [] = []
  discovered (e ∷ es) = elim (inspect_dir_entry disk base_dir e) [
    | none ↦ discovered es
    | some pb ↦ pb ∷ discovered es
  ]

  pub scan_entries-discovered :
      (index : Dict Playbook) (result : List Playbook) (es : List Entry)
      → (scan_entries disk base_dir index result es).1 ≡ result ++ discovered es
  unfolding scan_entries discovered
  scan_entries-discovered index result [] = sym (append-nil result)
  scan_entries-discovered index result (e ∷ es) =
      elim (Option-cases (inspect_dir_entry disk base_dir e)) [
        | inl skipped ↦ ground (arith, scan_entries-discovered index result es)
        | inr (pb, found) ↦ ground (
          arith,
          scan_entries-discovered (insert pb.id pb index) (result ++ pb ∷ []) es,
          append_assoc result (pb ∷ []) (discovered es),
        )
      ]

  discovered-none :
      (e : Entry) (es : List Entry)
      → inspect_dir_entry disk base_dir e ≡ none
      → discovered (e ∷ es) ≡ discovered es
  unfolding discovered
  discovered-none e es h = ground arith

  discovered-some :
      (e : Entry) (es : List Entry) (pb : Playbook)
      → inspect_dir_entry disk base_dir e ≡ some pb
      → discovered (e ∷ es) ≡ pb ∷ discovered es
  unfolding discovered
  discovered-some e es pb h = ground arith

  discovered_sound :
      (es : List Entry) (pb : Playbook)
      → In pb (discovered es)
      → (e : Entry) × In e es × IsPlaybookOf disk base_dir e pb
  discovered_sound [] pb h = unfold discovered in absurd h
  discovered_sound (e ∷ es) pb h = elim (Option-cases (inspect_dir_entry disk base_dir e)) [
    | inl skipped ↦
        let (x, at, p) = discovered_sound es pb (rw (discovered-none e es skipped) at h) in
        (x, inr at, p)
    | inr (found, one) ↦
        elim (let k : In pb (found ∷ discovered es) = rw (discovered-some e es found one) at h in
          k) [
            | inl same ↦ (e, inl refl, inspect-IsPlaybookOf e pb (one ∙ ap some same))
            | inr later ↦ let (x, at, p) = discovered_sound es pb later in (x, inr at, p)
          ]
  ]

  discovered_complete :
      (es : List Entry) (e : Entry) (pb : Playbook)
      → In e es
      → IsPlaybookOf disk base_dir e pb
      → In pb (discovered es)
  discovered_complete [] e pb at p = absurd at
  discovered_complete (x ∷ es) e pb (inl same) p =
      let found = ap (inspect_dir_entry disk base_dir) same ∙ inspect_of_IsPlaybookOf e pb p in
      rw (discovered-some x es pb found) (inl refl)
  discovered_complete (x ∷ es) e pb (inr later) p =
      elim (Option-cases (inspect_dir_entry disk base_dir x)) [
        | inl skipped ↦ rw (discovered-none x es skipped) (discovered_complete es e pb later p)
        | inr (found, one) ↦
            rw (discovered-some x es found one) (inr (discovered_complete es e pb later p))
      ]

-- A scan of a readable base directory returns a playbook exactly when one of the directory's entries
-- is a visible directory with a playbook.yml and the playbook describes that entry.
pub scan_iff :
    (disk : Disk) (l : Loader) (entries : List Entry) (pbs : List Playbook) (pb : Playbook)
    → disk.read_dir l.base_dir ≡ ok entries
    → (scan disk l).1 ≡ ok pbs
    → In pb pbs ↔ ((e : Entry) × In e entries × IsPlaybookOf disk l.base_dir e pb)
unfolding scan
scan_iff disk l entries pbs pb readable h =
    let all = scan_entries-discovered disk l.base_dir [] [] entries in
    let same : pbs ≡ discovered disk l.base_dir entries = ground (arith, all) in
    rw same (
      discovered_sound disk l.base_dir entries pb,
      λ (e, at, p). discovered_complete disk l.base_dir entries e pb at p,
    )

load_manifest-IsDispatchable :
    (disk : Disk) (base_dir dir_name : String) (m : Manifest)
    → load_manifest disk base_dir dir_name ≡ some m
    → IsDispatchable m
unfolding load_manifest
load_manifest-IsDispatchable disk base_dir dir_name m h =
    let path = join (base_dir ∷ dir_name ∷ "helvilette.yml" ∷ []) in
    elim (Result-cases (parse_file disk.read_file disk.unmarshal path)) [
      | inl (e, rejected) ↦ absurd (ground arith)
      | inr (m', parsed) ↦
          let same : m' ≡ m = ground arith in
          ((parse_file_iff disk.read_file disk.unmarshal path m).0 (parsed ∙ ap ok same)).3
    ]

-- Every manifest that a scan hands out can be dispatched.
pub scan-IsDispatchable :
    (disk : Disk) (l : Loader) (entries : List Entry) (pbs : List Playbook) (pb : Playbook)
    (m : Manifest)
    → disk.read_dir l.base_dir ≡ ok entries
    → (scan disk l).1 ≡ ok pbs
    → In pb pbs
    → pb.manifest ≡ some m
    → IsDispatchable m
scan-IsDispatchable disk l entries pbs pb m readable h at has =
    let (e, _, p) = (scan_iff disk l entries pbs pb readable h).0 at in
    load_manifest-IsDispatchable disk l.base_dir e.name m
      (unfold build_playbook in (sym (ap (λ (x : Playbook). x.manifest) p.built) ∙ has))
