-- ===== src/Git/Laws.antt =====
-- When `EnsureRepo` succeeds, and what it has then done.
use helvilette.Prelude.{
  String, ◌≡◌, ◌≢◌, ◌↔◌, ◌⊎◌, refl, inl, inr, Option, none, some, Option-cases, ok, Result-cases,
  arith, eq_iff,
}
use helvilette.Git.{
  GitEngine, SyncError, already_up_to_date, broken, present, missing, serious, ensure_repo,
  open_or_clone_repo, clone_repo, open_and_fetch_repo, sync_worktree, checkout_version, pull_latest,
}

-- What go-git's `Fetch` and `Pull` give without having failed: nothing, or that all is up to date.
abbrev pub IsUnbroken : Option SyncError → Type 0
IsUnbroken failure = (failure ≡ none) ⊎ (failure ≡ some already_up_to_date)

serious_iff : (failure : Option SyncError) → (serious failure ≡ none) ↔ IsUnbroken failure
serious_iff none = (λ _. inl refl, λ _. refl)
serious_iff (some already_up_to_date) = (λ _. inr refl, λ _. refl)
serious_iff (some (broken e)) =
    (λ h. absurd (cc), λ h. elim h [ inl same ↦ absurd (cc) | inr same ↦ absurd (cc) ])

module _ {W : Type 0} (G : GitEngine W) where
  -- The repository is cloned into a missing directory, or opened and fetched in one that is there.
  abbrev pub IsOpened : W → String → String → W → G.Repo → Type 0
  IsOpened w url dir w' repo =
      ((G.stat w dir ≡ missing) × (G.plain_clone w dir url ≡ (w', ok repo)))
      ⊎ ((G.stat w dir ≡ present)
          × (G.plain_open w dir ≡ ok repo)
          × ((G.fetch w repo).0 ≡ w')
          × IsUnbroken (G.fetch w repo).1)

  -- The worktree is at the version, or, where none is named, at the latest state of the origin.
  abbrev pub IsSynced : W → G.Repo → String → W → Type 0
  IsSynced w repo version w' =
      (G.worktree w repo ≡ none)
      × (((version ≢ "")
            × ((hash : String) × (G.resolve_revision w repo version ≡ ok hash)
                × (G.checkout w repo hash ≡ (w', none))))
          ⊎ ((version ≡ "") × ((G.pull w repo).0 ≡ w') × IsUnbroken (G.pull w repo).1))

  clone_iff :
      (w w' : W) (url dir : String) (repo : G.Repo)
      → (clone_repo G w url dir ≡ (w', ok repo)) ↔ (G.plain_clone w dir url ≡ (w', ok repo))
  unfolding clone_repo
  clone_iff w w' url dir repo = elim (Result-cases (G.plain_clone w dir url).1) [
    | inl (e, failed) ↦ ground arith
    | inr (got, cloned) ↦ ground arith
  ]

  fetch_iff :
      (w w' : W) (dir : String) (repo : G.Repo)
      → (open_and_fetch_repo G w dir ≡ (w', ok repo)) ↔ (
          (G.plain_open w dir ≡ ok repo)
          × ((G.fetch w repo).0 ≡ w')
          × IsUnbroken (G.fetch w repo).1)
  unfolding open_and_fetch_repo
  fetch_iff w w' dir repo = elim (Result-cases (G.plain_open w dir)) [
    | inl (e, failed) ↦ ground arith
    | inr (got, opened) ↦ elim (Option-cases (serious (G.fetch w got).1)) [
      | inl fetched ↦ ground (arith, serious_iff (G.fetch w got).1)
      | inr (e, failed) ↦ ground (arith, serious_iff (G.fetch w got).1)
    ]
  ]

  open_iff :
      (w w' : W) (url dir : String) (repo : G.Repo)
      → (open_or_clone_repo G w url dir ≡ (w', ok repo)) ↔ IsOpened w url dir w' repo
  unfolding open_or_clone_repo
  open_iff w w' url dir repo = ground (arith, clone_iff w w' url dir repo, fetch_iff w w' dir repo)

  checkout_iff :
      (w w' : W) (repo : G.Repo) (version : String)
      → (checkout_version G w repo version ≡ (w', none)) ↔ (
          (hash : String) × (G.resolve_revision w repo version ≡ ok hash)
          × (G.checkout w repo hash ≡ (w', none)))
  unfolding checkout_version
  checkout_iff w w' repo version = elim (Result-cases (G.resolve_revision w repo version)) [
    | inl (e, failed) ↦ ground arith
    | inr (hash, found) ↦ elim (Option-cases (G.checkout w repo hash).1) [
      | inl fine ↦ ground arith
      | inr (e, failed) ↦ ground arith
    ]
  ]

  pull_iff :
      (w w' : W) (repo : G.Repo)
      → (pull_latest G w repo ≡ (w', none))
        ↔ (((G.pull w repo).0 ≡ w') × IsUnbroken (G.pull w repo).1)
  unfolding pull_latest
  pull_iff w w' repo = elim (Option-cases (serious (G.pull w repo).1)) [
    | inl pulled ↦ ground (arith, serious_iff (G.pull w repo).1)
    | inr (e, failed) ↦ ground (arith, serious_iff (G.pull w repo).1)
  ]

  sync_iff :
      (w w' : W) (repo : G.Repo) (version : String)
      → (sync_worktree G w repo version ≡ (w', none)) ↔ IsSynced w repo version w'
  unfolding sync_worktree
  sync_iff w w' repo version =
      ground (arith, eq_iff version "", checkout_iff w w' repo version, pull_iff w w' repo)

  -- `EnsureRepo` succeeds exactly when it cloned the repository into a missing directory, or opened and
  -- fetched the one that is there, and then checked out the version's revision, or pulled where no
  -- version is named; to be up to date already is no failure.
  pub ensure_repo_iff :
      (w w' : W) (url dir version : String)
      → (ensure_repo G w url dir version ≡ (w', none))
        ↔ ((v : W) × (repo : G.Repo) × IsOpened w url dir v repo × IsSynced v repo version w')
  unfolding ensure_repo
  ensure_repo_iff w w' url dir version = (
    λ h. elim (Result-cases (open_or_clone_repo G w url dir).1) [
      | inl (e, failed) ↦ absurd (ground arith)
      | inr (repo, opened) ↦
          let v = (open_or_clone_repo G w url dir).0 in
          (
            v,
            repo,
            (open_iff w v url dir repo).0 (ground arith),
            (sync_iff v w' repo version).0 (ground arith),
          )
    ],
    λ (v, repo, opened, synced).
        let first = (open_iff w v url dir repo).1 opened in
        let second = (sync_iff v w' repo version).1 synced in ground arith,
  )
