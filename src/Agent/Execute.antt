-- ===== src/Agent/Execute.antt =====
-- `ExecutePlaybook` of cmd/agent/main.go over an unknown machine, whose state is `W`.
mod Success
pub mod Laws
mod Tests
use helvilette.Prelude.{
  String, Bool, true, false, Option, none, some, Result, ok, err, List, [], ◌∷◌, ◌++◌, ◌==◌, ◌&&◌,
  not, if◌then◌else◌,
}
use helvilette.Prelude.Dict.{Dict}
use helvilette.FilePath.{◌<>◌, is_abs, join, base, dir}
use helvilette.Types.{Job}
use helvilette.Git.{GitEngine, GitError, ensure_repo}

-- A command: its directory, what is added to the environment, and its words.
pub record Command : Type 0 where
  pub dir : String
  pub env : List String
  pub args : List String

-- The file system, go-git, the running of a command with its combined output and its error, and JSON:
-- `marshal` encodes a map of texts, which cannot fail. `show` is the text of an error of `EnsureRepo`.
pub record Machine (W : Type 0) : Type 1 where
  pub git : GitEngine W
  pub mkdir_all : W → String → W × Option String
  pub write_file : W → String → String → W × Option String
  pub combined_output : W → Command → W × (String × Option String)
  pub marshal : Dict String → String
  pub json_valid : String → Bool
  pub show : GitError → String

-- What the playbook's run needs: the file and the directory to run in.
pub record Source : Type 0 where
  pub playbook_file : String
  pub work_dir : String

abbrev pub repo_dir : String → String → String
repo_dir workspace url = join (join (workspace ∷ "repos" ∷ []) ∷ base url ∷ [])

abbrev repo_source : String → String → Source
repo_source root path = record {
  playbook_file =
      if not (path == "") && not (is_abs path)
      then join (root ∷ path ∷ [])
      else join (root ∷ "playbook.yml" ∷ []);
  work_dir = root;
}

abbrev path_source : String → Source
path_source path = record { playbook_file = path; work_dir = dir path }

abbrev pub content_source : String → String → Source
content_source workspace job_id = record {
  playbook_file = join (workspace ∷ ("helvilette_job_" <> job_id <> ".yml") ∷ []);
  work_dir = workspace;
}

module _ {W : Type 0} (M : Machine W) where
  -- The three ways to find the playbook; an error is the output that is reported.
  from_repo : String → Job → W → W × Result String Source
  from_repo workspace job w =
      let root = repo_dir workspace job.repo_url in
      let (w', failure) = ensure_repo M.git w job.repo_url root job.version in
      elim failure [
        | some e ↦ (w', err (M.marshal (("error", "Failed to pull git repo: " <> M.show e) ∷ [])))
        | none ↦ (w', ok (repo_source root job.playbook_path))
      ]

  from_content : String → Job → W → W × Result String Source
  from_content workspace job w =
      let source = content_source workspace job.job_id in
      let (w', failure) = M.write_file w source.playbook_file job.playbook_content in
      elim failure [
        | some e ↦ (w', err ("{\"error\": \"Failed to write playbook: " <> e <> "\"}"))
        | none ↦ (w', ok source)
      ]

  unfoldable pub find_source : String → Job → W → W × Result String Source
  unfolding from_repo from_content
  find_source workspace job w =
      if not (job.repo_url == "")
      then from_repo workspace job w
      else if not (job.playbook_path == "")
      then (w, ok (path_source job.playbook_path))
      else from_content workspace job w

  -- The workspace is made first.
  unfoldable pub prepare : String → Job → W → W × Result String Source
  prepare workspace job w =
      let (w', failure) = M.mkdir_all w workspace in
      elim failure [
        | some e ↦ (w', err ("{\"error\": \"Failed to create workspace: " <> e <> "\"}"))
        | none ↦ find_source workspace job w'
      ]

  abbrev vars_file : Source → String
  vars_file source = join (source.work_dir ∷ ".helvilette_extra_vars.json" ∷ [])

  -- The error of writing the variables is dropped.
  unfoldable pub write_vars : Dict String → Source → W → W × List String
  write_vars [] source w = (w, [])
  write_vars (v ∷ vars) source w = (
    (M.write_file w (vars_file source) (M.marshal (v ∷ vars))).0,
    "-e" ∷ ("@" <> vars_file source) ∷ [],
  )

  abbrev ansible : Source → List String → Command
  ansible source extra = record {
    dir = source.work_dir;
    env = "ANSIBLE_STDOUT_CALLBACK=json" ∷ [];
    args =
        ("ansible-playbook" ∷ "-i" ∷ "localhost," ∷ "-c" ∷ "local" ∷ source.playbook_file ∷ [])
        ++ extra;
  }

  unfoldable pub run_ansible : Dict String → Source → W → W × (String × Option String)
  run_ansible vars source w =
      let (w', extra) = write_vars vars source w in M.combined_output w' (ansible source extra)

  -- Output that is not JSON is wrapped.
  abbrev pub as_json : String → String
  as_json output =
      if not (M.json_valid output)
      then M.marshal (("raw_output", output) ∷ ("error", "Output was not valid JSON") ∷ [])
      else output

  abbrev pub status_of : Option String → String
  status_of none = "Success"
  status_of (some e) = "Failed"

  -- The machine afterwards, the status and the output.
  unfoldable pub execute_playbook : String → Job → W → W × (String × String)
  execute_playbook workspace job w =
      let (w', result) = prepare workspace job w in
      elim result [
        | err output ↦ (w', ("Failed", output))
        | ok source ↦
            let (w'', (output, failure)) = run_ansible job.extra_vars source w' in
            (w'', (status_of failure, as_json output))
      ]
