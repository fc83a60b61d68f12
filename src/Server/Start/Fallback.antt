-- ===== src/Server/Start/Fallback.antt =====
-- The fallback job of a server that starts with a loader.
use text.Mathlib.TextLemmas.{append-eq-nil_iff}
use helvilette.Prelude.{
  String, ◌≡◌, ◌≢◌, ◌↔◌, true, none, All, arith, eq_iff, inl, inr, ◌==◌, if◌then◌else◌,
}
use helvilette.Prelude.Dict.{Dict}
use helvilette.FilePath.{◌<>◌}
use helvilette.Types.{Job}
use helvilette.Playbook.Loader.{Disk, Loader, scan}
use helvilette.Server.{choose_job, has_manifests}
use helvilette.Server.Sync.{Passes}
use helvilette.Server.Sync.Answers.{choose_job-none_iff}
use helvilette.Server.Start.{load_playbooks, first_job, mock_job, fallback_content}

job_prefix : (s : String) → "job-" <> s ≢ ""
job_prefix s h =
    let parts = (append-eq-nil_iff {p = "job-"} {q = s}).0 h in
    ground (arith, parts.0, eq_iff "job-" "")

or_else : (x y : Job) → y.job_id ≢ "" → (if x.job_id == "" then y else x).job_id ≢ ""
or_else x y h = ground (arith, eq_iff x.job_id "")

loaded_job :
    (disk : Disk) (env now : String) (l : Loader)
    → (load_playbooks disk env now l).current_job.job_id ≢ ""
unfolding load_playbooks
loaded_job disk env now l =
    let (l', result) = scan disk l in
    or_else (first_job disk env l' result) (mock_job now fallback_content) (job_prefix now)

-- A server that starts with a loader leaves a registered node idle exactly when every playbook
-- passes and some playbook has a manifest: it has a fallback job, whatever the scan found.
pub loaded_idle_iff :
    (disk : Disk) (env now : String) (l : Loader) (labels : Dict String)
    → (choose_job env
          (load_playbooks disk env now l).current_job
          (load_playbooks disk env now l).playbooks
          labels
        ≡ none)
      ↔ (All (Passes labels) (load_playbooks disk env now l).playbooks
          × (has_manifests (load_playbooks disk env now l).playbooks ≡ true))
loaded_idle_iff disk env now l labels =
    let loaded = load_playbooks disk env now l in
    let (to, from) = choose_job-none_iff env loaded.current_job loaded.playbooks labels in
    (
      λ h.
          let (passed, reason) = to h in
          elim reason [
            | inl missing ↦ absurd (loaded_job disk env now l missing)
            | inr some_manifest ↦ (passed, some_manifest)
          ],
      λ (passed, some_manifest). from (passed, inr some_manifest),
    )
