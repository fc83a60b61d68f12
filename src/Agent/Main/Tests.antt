-- ===== src/Agent/Main/Tests.antt =====
-- The agent's command on the sample machine, with no flag, no file and no environment.
use helvilette.Prelude.{ℕ, Bool, List, ◌≡◌, ◌↔◌, refl, false, some, none, ok, err, [], ◌∷◌}
use helvilette.Agent.Settings.{Host, Flags, eof}
use helvilette.Agent.Config.{State, load_config, apply_file}
use helvilette.Agent.Client.{register_node}
use helvilette.Agent.Process.{Select, ticked, cancelled, polling, run, loop}
use helvilette.Agent.Sample.{World, world, machine, client}
use helvilette.Agent.Main.{Outcome, stopped, running, exit_code, agent_main}
use helvilette.Agent.Main.Running.{IsRunning}
use helvilette.Agent.Main.Laws.{agent_main-IsRunning}

abbrev host : Host ℕ
host = record {
  hostname = some "web-1";
  getenv = λ name. "";
  read_file = λ path. err "no such file";
  decode_yaml = λ content. eof;
  parse_duration = λ text. none;
  five_seconds = 5;
}

abbrev no_flags : Flags
no_flags = record {
  config = "";
  othela_url = "";
  node_id = "";
  poll_interval = "";
  workspace_dir = "";
  labels = "";
}

abbrev command : Bool → List (Bool × Bool) → List Select → World × Outcome
command print_config rounds selects =
    agent_main machine client host (λ d. "5s") no_flags print_config rounds selects (world 0 0)

abbrev two_rounds : List (Bool × Bool)
two_rounds = (false, false) ∷ (false, false) ∷ []

-- The agent, which has registered at the second attempt, polls; a signal stops it.
agent_main_tests :
    (command false two_rounds [] ≡ (world 0 2, running polling))
    × (command false two_rounds (cancelled ∷ []) ≡ (world 0 2, stopped))
unfolding agent_main run loop register_node load_config apply_file
agent_main_tests = (refl, refl)

agent_main-IsRunning_example :
    (exit_code (command false two_rounds (ticked ∷ ticked ∷ [])).1 ≡ none) ↔ (
      (◌≡◌ false false)
      × ((st : State ℕ) × (load_config host no_flags ≡ ok st)
          × IsRunning machine client st.0 two_rounds (ticked ∷ ticked ∷ []) (world 0 0)))
agent_main-IsRunning_example =
    agent_main-IsRunning machine client host (λ d. "5s") no_flags false two_rounds
      (ticked ∷ ticked ∷ []) (world 0 0)
