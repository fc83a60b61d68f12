-- ===== src/Playbook/Loader/Index.antt =====
-- What `Get` and `Load` find after a scan.
use mathlib.Core.Path.{subst}
use helvilette.Prelude.{
  String, ◌≡◌, refl, ap, ◌≢◌, ◌↔◌, ◌⊎◌, none, some, Option, eq_refl, Option-cases, Result-cases, ok,
  inl, inr, List, [], ◌∷◌, ◌++◌, In, All, arith, ◌==◌, eq_iff, if◌then◌else◌,
}
use helvilette.Prelude.Dict.{Dict, insert, lookup, lookup-insert, lookup-nil}
use helvilette.Playbook.{Playbook}
use helvilette.Playbook.Loader.{
  Entry, Disk, Loader, inspect_dir_entry, scan_entries, scan, get_playbook,
}
use helvilette.Playbook.Loader.Laws.{discovered, scan_entries-discovered}

-- No two playbooks of the list have the same id.
abbrev pub HasDistinctIds : List Playbook → Type 0
HasDistinctIds [] = Unit
HasDistinctIds (pb ∷ pbs) = All (λ q. q.id ≢ pb.id) pbs × HasDistinctIds pbs

-- The last playbook of the list with the id, or what was there before.
latest : String → List Playbook → Option Playbook → Option Playbook
latest id [] before = before
latest id (pb ∷ pbs) before = latest id pbs (if pb.id == id then some pb else before)

scan_entries-latest :
    (disk : Disk) (base_dir : String) (index : Dict Playbook) (result : List Playbook)
    (es : List Entry) (id : String)
    → lookup id (scan_entries disk base_dir index result es).0
      ≡ latest id (discovered disk base_dir es) (lookup id index)
unfolding scan_entries discovered latest
scan_entries-latest disk base_dir index result [] id = refl
scan_entries-latest disk base_dir index result (e ∷ es) id =
    elim (Option-cases (inspect_dir_entry disk base_dir e)) [
      | inl skipped ↦ ground (arith, scan_entries-latest disk base_dir index result es id)
      | inr (pb, found) ↦ ground (
        arith,
        scan_entries-latest disk base_dir (insert pb.id pb index) (result ++ pb ∷ []) es id,
        lookup-insert pb.id id pb index,
      )
    ]

latest_miss :
    (id : String) (pbs : List Playbook) (before : Option Playbook)
    → All (λ q. q.id ≢ id) pbs
    → latest id pbs before ≡ before
unfolding latest
latest_miss id [] before _ = refl
latest_miss id (pb ∷ pbs) before (other, rest) =
    ground (arith, latest_miss id pbs before rest, eq_iff pb.id id)

latest_hit :
    (pbs : List Playbook) (pb : Playbook) (before : Option Playbook)
    → HasDistinctIds pbs
    → In pb pbs
    → latest pb.id pbs before ≡ some pb
unfolding latest
latest_hit [] pb before _ at = absurd at
latest_hit (q ∷ pbs) pb before (fresh, d) (inl same) =
    let here : latest q.id pbs (if q.id == q.id then some q else before) ≡ some q =
      rw (eq_refl q.id) (latest_miss q.id pbs (some q) fresh) in
    subst (λ (x : Playbook). latest x.id (q ∷ pbs) before ≡ some x) same here
latest_hit (q ∷ pbs) pb before (fresh, d) (inr later) =
    latest_hit pbs pb (if q.id == pb.id then some q else before) d later

latest_sound :
    (id : String) (pbs : List Playbook) (before : Option Playbook) (pb : Playbook)
    → latest id pbs before ≡ some pb
    → (before ≡ some pb) ⊎ (In pb pbs × (pb.id ≡ id))
unfolding latest
latest_sound id [] before pb h = inl h
latest_sound id (q ∷ pbs) before pb h =
    grind (arith, latest_sound id pbs (if q.id == id then some q else before) pb h, eq_iff q.id id)

lookup-scan :
    (disk : Disk) (l : Loader) (pbs : List Playbook) (id : String)
    → (scan disk l).1 ≡ ok pbs
    → lookup id (scan disk l).0.playbooks ≡ latest id pbs none
unfolding scan
lookup-scan disk l pbs id h = elim (Result-cases (disk.read_dir l.base_dir)) [
  | inl (e, failed) ↦ absurd (ground arith)
  | inr (es, listed) ↦
      let same : discovered disk l.base_dir es ≡ pbs =
        ground (arith, scan_entries-discovered disk l.base_dir [] [] es) in
      let found = scan_entries-latest disk l.base_dir [] [] es id in
      ground (arith, found, lookup-nil {V = Playbook} id, ap (λ ps. latest id ps none) same)
]

-- After a scan whose playbooks have distinct ids, `Get` finds exactly the playbooks that the scan
-- returned, each under its own id.
pub get_playbook-scan :
    (disk : Disk) (l : Loader) (pbs : List Playbook) (id : String) (pb : Playbook)
    → (scan disk l).1 ≡ ok pbs
    → HasDistinctIds pbs
    → (get_playbook (scan disk l).0 id ≡ ok pb) ↔ (In pb pbs × (pb.id ≡ id))
unfolding get_playbook
get_playbook-scan disk l pbs id pb h d = (
  λ got. elim (latest_sound id pbs none pb (ground (arith, lookup-scan disk l pbs id h))) [
    | inl never ↦ absurd (cc)
    | inr found ↦ found
  ],
  λ (at, same).
      subst (λ i. get_playbook (scan disk l).0 i ≡ ok pb) same
        (ground (arith, lookup-scan disk l pbs pb.id h, latest_hit pbs pb none d at)),
)
