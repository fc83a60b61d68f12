-- ===== src/Agent/Sample.antt =====
-- A machine and an HTTP client to run the agent on: the first run of Ansible fails, the first
-- post is refused, and every poll gives the same job.
use helvilette.Prelude.{ℕ, ◌+◌, String, none, some, ok, [], ◌∷◌, is_nat, if◌then◌else◌, true}
use helvilette.Types.{Job, no_job}
use helvilette.Git.{GitEngine, present}
use helvilette.Agent.{AgentConfiguration}
use helvilette.Agent.Execute.{Machine}
use helvilette.Agent.Client.{Client, HttpResponse}

-- How often Ansible has run, and how many posts were made.
pub record World : Type 0 where
  pub runs : ℕ
  pub posts : ℕ

abbrev pub world : ℕ → ℕ → World
world runs posts = record { runs = runs; posts = posts }

abbrev git : GitEngine World
git = record {
  Repo = String;
  stat = λ w dir. present;
  plain_clone = λ w dir url. (w, ok dir);
  plain_open = λ w dir. ok dir;
  fetch = λ w repo. (w, none);
  worktree = λ w repo. none;
  resolve_revision = λ w repo version. ok version;
  checkout = λ w repo hash. (w, none);
  pull = λ w repo. (w, none);
}

abbrev pub machine : Machine World
machine = record {
  git = git;
  mkdir_all = λ w dir. (w, none);
  write_file = λ w path text. (w, none);
  combined_output = λ w command. (
    record w { runs = w.runs + 1 },
    ("{\n    \"plays\": []\n}\n", if is_nat 0 w.runs then some "exit status 2" else none),
  );
  marshal = λ vars. "{}";
  json_valid = λ text. true;
  show = λ e. "git";
}

abbrev pub nginx_job : Job
nginx_job = record no_job { job_id = "job-1"; repo_url = "https://git/nginx.git"; version = "v1" }

abbrev response : ℕ → HttpResponse
response code = record { code = code; status = ""; body = "job" }

abbrev pub client : Client World
client = record {
  get_url = λ w url. (w, ok (response 200));
  post = λ w url text.
      (record w { posts = w.posts + 1 }, ok (response (if is_nat 0 w.posts then 503 else 200)));
  marshal_registration = λ id labels. id;
  marshal_report = λ report. ok "report";
  decode_job = λ text. ok nginx_job;
}

abbrev pub config : AgentConfiguration ℕ
config = record {
  othela_url = "http://othela/api/v1";
  node_id = "web-1";
  poll_interval = 5;
  workspace_dir = "/tmp/helvilette";
  labels = ("role", "web") ∷ [];
}
