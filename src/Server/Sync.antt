-- ===== src/Server/Sync.antt =====
-- Which job `handleSync` answers with.
pub mod Answers
use helvilette.Prelude.{
  String, ◌≡◌, refl, sym, ap, ◌∙◌, ◌≢◌, ◌↔◌, true, false, Bool-cases, Option, none, some,
  Option-cases, inl, inr, List, List-cases, [], ◌∷◌, ◌++◌, All, arith, ◌==◌, eq_iff,
}
use helvilette.Prelude.Dict.{Dict}
use helvilette.Types.{Job}
use helvilette.Manifest.{Manifest, NodeGroup}
use helvilette.Manifest.Matching.{match_node_groups}
use helvilette.Manifest.Matching.First.{
  Misses, FirstMatch, match_node_groups-FirstMatch, match_node_groups-nil,
  match_node_groups_of_FirstMatch, match_node_groups_of_Misses,
}
use helvilette.Playbook.{Playbook}
use helvilette.Server.{manifest_job, match_job, match_playbooks, has_manifests, fallback_job}

-- No node group of the playbook's manifest, if it has one, selects the labels.
abbrev pub Passes : Dict String → Playbook → Type 0
Passes labels pb = (m : Manifest) → pb.manifest ≡ some m → All (Misses labels) m.spec.node_groups

-- The job is built from the first playbook that has a matching group, and from its first such group.
pub record IsFirstMatch (env : String) (labels : Dict String) (pbs : List Playbook) (j : Job)
    : Type 0 where
  pub before : List Playbook
  pub playbook : Playbook
  pub after : List Playbook
  pub split : pbs ≡ before ++ playbook ∷ after
  pub passed : All (Passes labels) before
  pub manifest : Manifest
  pub has_manifest : playbook.manifest ≡ some manifest
  pub group : NodeGroup
  pub first_group : FirstMatch labels manifest.spec.node_groups group
  pub built : j ≡ manifest_job env playbook manifest group

abbrev pub HasNoManifest : Playbook → Type 0
HasNoManifest pb = pb.manifest ≡ none

-- The fallback job stands in only if there is one and no playbook has a manifest.
abbrev pub IsFallback : Job → List Playbook → Job → Type 0
IsFallback current_job pbs j = (j ≡ current_job) × (current_job.job_id ≢ "") × All HasNoManifest pbs

pub has_manifests_iff : (pbs : List Playbook) → (has_manifests pbs ≡ false) ↔ All HasNoManifest pbs
unfolding has_manifests
has_manifests_iff [] = (λ _. tt, λ _. refl)
has_manifests_iff (pb ∷ pbs) = ground (arith, has_manifests_iff pbs)

pub fallback_job_iff :
    (current_job : Job) (pbs : List Playbook) (j : Job)
    → (fallback_job current_job pbs ≡ some j) ↔ IsFallback current_job pbs j
unfolding fallback_job
fallback_job_iff current_job pbs j =
    ground (arith, eq_iff current_job.job_id "", has_manifests_iff pbs)

module _ (env : String) (labels : Dict String) where
  match_job-none : (pb : Playbook) → match_job env labels pb ≡ none → Passes labels pb
  unfolding match_job
  match_job-none pb h m has = elim (List-cases (match_node_groups m labels)) [
    | inl nothing ↦ match_node_groups-nil m labels nothing
    | inr (g, rest, found) ↦ absurd (ground arith)
  ]

  match_job-some :
      (pb : Playbook) (j : Job)
      → match_job env labels pb ≡ some j
      → (m : Manifest) × (g : NodeGroup) × (pb.manifest ≡ some m)
        × FirstMatch labels m.spec.node_groups g
        × (j ≡ manifest_job env pb m g)
  unfolding match_job
  match_job-some pb j h = elim (Option-cases pb.manifest) [
    | inl missing ↦ absurd (ground arith)
    | inr (m, has) ↦ elim (List-cases (match_node_groups m labels)) [
      | inl nothing ↦ absurd (ground arith)
      | inr (g, rest, found) ↦
          (m, g, has, match_node_groups-FirstMatch m labels g rest found, ground arith)
    ]
  ]

  match_job_of_Passes : (pb : Playbook) → Passes labels pb → match_job env labels pb ≡ none
  unfolding match_job
  match_job_of_Passes pb p = elim (Option-cases pb.manifest) [
    | inl missing ↦ ground arith
    | inr (m, has) ↦ ground (arith, match_node_groups_of_Misses m labels (p m has))
  ]

  match_job_of_FirstMatch :
      (pb : Playbook) (m : Manifest) (g : NodeGroup)
      → pb.manifest ≡ some m
      → FirstMatch labels m.spec.node_groups g
      → match_job env labels pb ≡ some (manifest_job env pb m g)
  unfolding match_job
  match_job_of_FirstMatch pb m g has f =
      let (rest, found) = match_node_groups_of_FirstMatch m labels g f in ground arith

  pub match_playbooks-some :
      (pbs : List Playbook) (j : Job)
      → match_playbooks env labels pbs ≡ some j
      → IsFirstMatch env labels pbs j
  unfolding match_playbooks
  match_playbooks-some [] j h = absurd (cc)
  match_playbooks-some (pb ∷ pbs) j h = elim (Option-cases (match_job env labels pb)) [
    | inl missed ↦
        let later = match_playbooks-some pbs j (ground arith) in
        record {
          before = pb ∷ later.before;
          playbook = later.playbook;
          after = later.after;
          split = ap (λ l. pb ∷ l) later.split;
          passed = (match_job-none pb missed, later.passed);
          manifest = later.manifest;
          has_manifest = later.has_manifest;
          group = later.group;
          first_group = later.first_group;
          built = later.built;
        }
    | inr (j', found) ↦
        let (m, g, has, first, same) = match_job-some pb j' found in
        let eq : j' ≡ j = ground arith in
        record {
          before = [];
          playbook = pb;
          after = pbs;
          split = refl;
          passed = tt;
          manifest = m;
          has_manifest = has;
          group = g;
          first_group = first;
          built = sym eq ∙ same;
        }
  ]

  pub match_playbooks-none :
      (pbs : List Playbook) → match_playbooks env labels pbs ≡ none → All (Passes labels) pbs
  unfolding match_playbooks
  match_playbooks-none [] h = tt
  match_playbooks-none (pb ∷ pbs) h = elim (Option-cases (match_job env labels pb)) [
    | inl missed ↦ (match_job-none pb missed, match_playbooks-none pbs (ground arith))
    | inr (j, found) ↦ absurd (ground arith)
  ]

  pub match_playbooks_of_Passes :
      (pbs : List Playbook) → All (Passes labels) pbs → match_playbooks env labels pbs ≡ none
  unfolding match_playbooks
  match_playbooks_of_Passes [] _ = refl
  match_playbooks_of_Passes (pb ∷ pbs) (p, ps) =
      ground (arith, match_job_of_Passes pb p, match_playbooks_of_Passes pbs ps)

  match_playbooks_after :
      (before after : List Playbook) (pb : Playbook) (j : Job)
      → All (Passes labels) before
      → match_job env labels pb ≡ some j
      → match_playbooks env labels (before ++ pb ∷ after) ≡ some j
  unfolding match_playbooks
  match_playbooks_after [] after pb j _ h = ground arith
  match_playbooks_after (x ∷ before) after pb j (p, ps) h =
      ground (arith, match_job_of_Passes x p, match_playbooks_after before after pb j ps h)

  pub match_playbooks_of_IsFirstMatch :
      (pbs : List Playbook) (j : Job)
      → IsFirstMatch env labels pbs j
      → match_playbooks env labels pbs ≡ some j
  match_playbooks_of_IsFirstMatch pbs j f =
      ap (match_playbooks env labels) f.split
      ∙ match_playbooks_after f.before f.after f.playbook j f.passed (
          match_job_of_FirstMatch f.playbook f.manifest f.group f.has_manifest f.first_group
          ∙ ap some (sym f.built))

pub Passes-of_HasNoManifest :
    (labels : Dict String) (pbs : List Playbook) → All HasNoManifest pbs → All (Passes labels) pbs
Passes-of_HasNoManifest labels [] _ = tt
Passes-of_HasNoManifest labels (pb ∷ pbs) (missing, rest) =
    (λ m has. absurd (ground arith), Passes-of_HasNoManifest labels pbs rest)
