-- ===== src/Git/Tests.antt =====
-- A run of `EnsureRepo` over a disk that holds the revision of each directory.
use helvilette.Prelude.{String, ◌≡◌, refl, ◌↔◌, none, some, ok, [], ◌∷◌}
use helvilette.Prelude.Dict.{Dict, lookup, insert}
use helvilette.Git.{
  GitEngine, present, missing, already_up_to_date, ensure_repo, open_or_clone_repo, clone_repo,
  open_and_fetch_repo, sync_worktree, checkout_version, pull_latest,
}
use helvilette.Git.Laws.{IsOpened, IsSynced, ensure_repo_iff}

abbrev checkouts : GitEngine (Dict String)
checkouts = record {
  Repo = String;
  stat = λ w dir. elim (lookup dir w) [ none ↦ missing | some _ ↦ present ];
  plain_clone = λ w dir url. (insert dir "main" w, ok dir);
  plain_open = λ w dir. ok dir;
  fetch = λ w repo. (w, some already_up_to_date);
  worktree = λ w repo. none;
  resolve_revision = λ w repo version. ok version;
  checkout = λ w repo hash. (insert repo hash w, none);
  pull = λ w repo. (w, some already_up_to_date);
}

ensure_repo_tests :
    (ensure_repo checkouts [] "https://git/nginx.git" "/repos/nginx.git" "v1"
      ≡ (("/repos/nginx.git", "v1") ∷ [], none))
    × (ensure_repo checkouts
          (("/repos/nginx.git", "v1") ∷ [])
          "https://git/nginx.git"
          "/repos/nginx.git"
          ""
        ≡ (("/repos/nginx.git", "v1") ∷ [], none))
unfolding ensure_repo open_or_clone_repo clone_repo open_and_fetch_repo sync_worktree
    checkout_version pull_latest lookup insert
ensure_repo_tests = (refl, refl)

ensure_repo_iff_example :
    (ensure_repo checkouts [] "https://git/nginx.git" "/repos/nginx.git" "v1"
      ≡ (("/repos/nginx.git", "v1") ∷ [], none))
    ↔ ((v : Dict String) × (repo : String) × IsOpened checkouts [] "https://git/nginx.git"
          "/repos/nginx.git" v repo
        × IsSynced checkouts v repo "v1" (("/repos/nginx.git", "v1") ∷ []))
ensure_repo_iff_example =
    ensure_repo_iff checkouts [] (("/repos/nginx.git", "v1") ∷ []) "https://git/nginx.git"
      "/repos/nginx.git" "v1"
