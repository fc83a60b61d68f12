-- ===== src/Server/Start/Dispatch.antt =====
-- The jobs that a server hands out from the playbooks that it scanned.
use text.Mathlib.TextEquality.{eq_iff}
use mathlib.Core.Path.{subst}
use helvilette.Prelude.{
  String, ◌≡◌, refl, ◌==◌, if◌then◌else◌, sym, ap, ◌∙◌, ◌≢◌, ◌⊎◌, true, some, ok, List, [], ◌∷◌,
  ◌++◌, In, arith, inl, inr,
}
use helvilette.Prelude.Dict.{Dict}
use helvilette.FilePath.{◌<>◌}
use helvilette.Types.{Job}
use helvilette.Manifest.{Manifest, NodeGroup}
use helvilette.Manifest.Matching.{is_subset}
use helvilette.Manifest.Validation.Laws.{IsDispatchable}
use helvilette.Playbook.{Playbook}
use helvilette.Playbook.Loader.{Disk, Loader, Entry, scan}
use helvilette.Playbook.Loader.Laws.{scan-IsDispatchable}
use helvilette.Server.{test_repo_url, choose_job}
use helvilette.Server.Sync.{IsFallback, IsFirstMatch}
use helvilette.Server.Sync.Answers.{choose_job_iff}
use helvilette.Server.Start.{load_playbooks}

-- The job asks for the repository, branch and playbook of a valid manifest among the playbooks, with
-- the variables of one of its node groups, which selects the labels.
pub record IsDeclared (labels : Dict String) (pbs : List Playbook) (j : Job) : Type 0 where
  pub playbook : Playbook
  pub listed : In playbook pbs
  pub manifest : Manifest
  pub has_manifest : playbook.manifest ≡ some manifest
  pub valid : IsDispatchable manifest
  pub group : NodeGroup
  pub member : In group manifest.spec.node_groups
  pub selects : is_subset group.node_selector labels ≡ true
  pub job_id : j.job_id ≡ "job-" <> playbook.id <> "-" <> group.name
  pub repo_url : j.repo_url ≡ manifest.spec.repo
  pub version : j.version ≡ manifest.spec.branch
  pub playbook_path : j.playbook_path ≡ manifest.spec.playbook
  pub extra_vars : j.extra_vars ≡ group.ansible.extra_vars

pub In-middle : {A : Type 0} (before after : List A) (x : A) → In x (before ++ x ∷ after)
In-middle [] after x = inl refl
In-middle (y ∷ before) after x = inr (In-middle before after x)

repo_kept : (test repo : String) → repo ≢ "" → (if repo == "" then test else repo) ≡ repo
repo_kept test repo h = ground (arith, eq_iff repo "")

pub IsFirstMatch-IsDeclared :
    (env : String) (labels : Dict String) (pbs : List Playbook) (j : Job)
    → ((pb : Playbook) (m : Manifest) → In pb pbs → pb.manifest ≡ some m → IsDispatchable m)
    → IsFirstMatch env labels pbs j
    → IsDeclared labels pbs j
IsFirstMatch-IsDeclared env labels pbs j all_valid f =
    let listed : In f.playbook pbs =
      subst (In f.playbook) (sym f.split) (In-middle f.before f.after f.playbook) in
    let first = f.first_group in
    let valid = all_valid f.playbook f.manifest listed f.has_manifest in
    record {
      playbook = f.playbook;
      listed = listed;
      manifest = f.manifest;
      has_manifest = f.has_manifest;
      valid = valid;
      group = f.group;
      member = subst (In f.group) (sym first.split) (In-middle first.before first.after f.group);
      selects = first.hit;
      job_id = ap (λ (x : Job). x.job_id) f.built;
      repo_url =
          ap (λ (x : Job). x.repo_url) f.built
          ∙ repo_kept (test_repo_url env) f.manifest.spec.repo valid.repo;
      version = ap (λ (x : Job). x.version) f.built;
      playbook_path = ap (λ (x : Job). x.playbook_path) f.built;
      extra_vars = ap (λ (x : Job). x.extra_vars) f.built;
    }

pub playbooks-loaded :
    (disk : Disk) (env now : String) (l : Loader) (pbs : List Playbook)
    → (scan disk l).1 ≡ ok pbs
    → (load_playbooks disk env now l).playbooks ≡ pbs
unfolding load_playbooks
playbooks-loaded disk env now l pbs found = ground arith

-- Once a scan has succeeded, every job for some labels is declared by a valid manifest, so that it
-- never carries the test repository; or it is the fallback job, and no playbook has a manifest.
pub loaded_jobs :
    (disk : Disk) (env now : String) (l : Loader) (entries : List Entry) (pbs : List Playbook)
    (labels : Dict String) (j : Job)
    → disk.read_dir l.base_dir ≡ ok entries
    → (scan disk l).1 ≡ ok pbs
    → choose_job env
        (load_playbooks disk env now l).current_job
        (load_playbooks disk env now l).playbooks
        labels
      ≡ some j
    → IsDeclared labels pbs j ⊎ IsFallback (load_playbooks disk env now l).current_job pbs j
loaded_jobs disk env now l entries pbs labels j readable found h =
    let job = (load_playbooks disk env now l).current_job in
    let all = playbooks-loaded disk env now l pbs found in
    let chosen : choose_job env job pbs labels ≡ some j =
      ap (λ ps. choose_job env job ps labels) (sym all) ∙ h in
    elim ((choose_job_iff env job pbs labels j).0 chosen) [
      | inl first ↦ inl (
          IsFirstMatch-IsDeclared env labels pbs j
            (λ pb m. scan-IsDispatchable disk l entries pbs pb m readable found) first)
      | inr fallback ↦ inr fallback
    ]
