-- ===== src/Git.antt =====
-- pkg/git/clone.go over an unknown go-git and file system, whose state is `W`.
mod Laws
mod Tests
use helvilette.Prelude.{String, Option, none, some, Result, ok, err, ◌==◌, if◌then◌else◌}

-- What `os.Stat` says of the destination.
pub data Stat : Type 0 where
  present missing : Stat
  failed : String → Stat

-- Why `Fetch` and `Pull` return an error; `NoErrAlreadyUpToDate` is one of them.
pub data SyncError : Type 0 where
  already_up_to_date : SyncError
  broken : String → SyncError

-- The calls of go-git. `worktree` is `none` where `Worktree` succeeds. `fetch` forces and takes every
-- tag, `checkout` forces, and `pull` forces and pulls from "origin".
pub record GitEngine (W : Type 0) : Type 1 where
  pub Repo : Type 0
  pub stat : W → String → Stat
  pub plain_clone : W → String → String → W × Result String Repo
  pub plain_open : W → String → Result String Repo
  pub fetch : W → Repo → W × Option SyncError
  pub worktree : W → Repo → Option String
  pub resolve_revision : W → Repo → String → Result String String
  pub checkout : W → Repo → String → W × Option String
  pub pull : W → Repo → W × Option SyncError

pub data GitError : Type 0 where
  stat_failed clone_failed open_failed fetch_failed no_worktree unresolved checkout_failed
        pull_failed :
      String → GitError

-- `err != nil && err != git.NoErrAlreadyUpToDate`
abbrev pub serious : Option SyncError → Option String
serious none = none
serious (some already_up_to_date) = none
serious (some (broken e)) = some e

module _ {W : Type 0} (G : GitEngine W) where
  unfoldable pub clone_repo : W → String → String → W × Result GitError G.Repo
  clone_repo w url dest_dir =
      let (w', result) = G.plain_clone w dest_dir url in
      elim result [ err e ↦ (w', err (clone_failed e)) | ok repo ↦ (w', ok repo) ]

  fetch_opened : W → G.Repo → W × Result GitError G.Repo
  fetch_opened w repo =
      let (w', failure) = G.fetch w repo in
      elim (serious failure) [ some e ↦ (w', err (fetch_failed e)) | none ↦ (w', ok repo) ]

  unfoldable pub open_and_fetch_repo : W → String → W × Result GitError G.Repo
  unfolding fetch_opened
  open_and_fetch_repo w dest_dir = elim (G.plain_open w dest_dir) [
    | err e ↦ (w, err (open_failed e))
    | ok repo ↦ fetch_opened w repo
  ]

  unfoldable pub open_or_clone_repo : W → String → String → W × Result GitError G.Repo
  open_or_clone_repo w url dest_dir = elim (G.stat w dest_dir) [
    | missing ↦ clone_repo w url dest_dir
    | failed e ↦ (w, err (stat_failed e))
    | present ↦ open_and_fetch_repo w dest_dir
  ]

  abbrev checked_out : W × Option String → W × Option GitError
  checked_out (w, none) = (w, none)
  checked_out (w, some e) = (w, some (checkout_failed e))

  unfoldable pub checkout_version : W → G.Repo → String → W × Option GitError
  checkout_version w repo version = elim (G.resolve_revision w repo version) [
    | err e ↦ (w, some (unresolved e))
    | ok hash ↦ checked_out (G.checkout w repo hash)
  ]

  unfoldable pub pull_latest : W → G.Repo → W × Option GitError
  pull_latest w repo =
      let (w', failure) = G.pull w repo in
      elim (serious failure) [ some e ↦ (w', some (pull_failed e)) | none ↦ (w', none) ]

  unfoldable pub sync_worktree : W → G.Repo → String → W × Option GitError
  sync_worktree w repo version = elim (G.worktree w repo) [
    | some e ↦ (w, some (no_worktree e))
    | none ↦ if version == "" then pull_latest w repo else checkout_version w repo version
  ]

  unfoldable pub ensure_repo : W → String → String → String → W × Option GitError
  ensure_repo w url dest_dir version =
      let (w', result) = open_or_clone_repo w url dest_dir in
      elim result [ err e ↦ (w', some e) | ok repo ↦ sync_worktree w' repo version ]
