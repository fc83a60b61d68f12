-- ===== src/Agent/Main.antt =====
-- `main` of cmd/agent/main.go: what the command does with the flags it was given.
mod Running
mod Laws
mod Tests
use helvilette.Prelude.{
  ℕ, String, Bool, true, false, Option, none, some, Result, ok, err, List, if◌then◌else◌,
}
use helvilette.Agent.{AgentConfiguration, ConfigProvenance}
use helvilette.Agent.Settings.{Host, Flags, ConfigError}
use helvilette.Agent.Config.{load_config}
use helvilette.Agent.Display.{format_config}
use helvilette.Agent.Display.Effective.{ConfigLog, log_effective_config}
use helvilette.Agent.Execute.{Machine}
use helvilette.Agent.Client.{Client}
use helvilette.Agent.Process.{Progress, registering, polling, ended, Select, new_agent, run}

-- Where the command is: ended with the configuration's error, with what it printed or with the error
-- of `Run`; or in `Run`, where it registers or polls.
pub data Outcome : Type 0 where
  unconfigured : ConfigError → Outcome
  printed : String → Outcome
  stopped : Outcome
  running : Progress → Outcome

-- `log.Fatal` ends the process with 1; a process that runs has no code.
unfoldable pub exit_code : Outcome → Option ℕ
exit_code (unconfigured e) = some 1
exit_code (printed text) = some 0
exit_code stopped = some 1
exit_code (running progress) = none

-- `Run` returns only errors: that of the registration, or that of the context in its loop.
abbrev pub after_run : Progress → Outcome
after_run registering = running registering
after_run polling = running polling
after_run ended = stopped

module _ {W Duration : Type 0} (M : Machine W) (C : Client W) (host : Host Duration)
    (show : Duration → String) where
  start_agent : List (Bool × Bool) → List Select → AgentConfiguration Duration → W → W × Outcome
  start_agent rounds selects config w =
      let ((a, w'), progress) = run M C rounds selects (new_agent config, w) in
      (w', after_run progress)

  -- The rounds are those of the registration, and then come what the loop's `select` receives.
  unfoldable pub agent_main : Flags → Bool → List (Bool × Bool) → List Select → W → W × Outcome
  unfolding start_agent
  agent_main flags print_config rounds selects w = elim (load_config host flags) [
    | err e ↦ (w, unconfigured e)
    | ok (config, provenance) ↦
        if print_config
        then (w, printed (format_config show config provenance))
        else start_agent rounds selects config w
  ]

  -- What it logs of the configuration: nothing, if it ends before the agent is made.
  unfoldable pub agent_main_log : Flags → Bool → Option ConfigLog
  agent_main_log flags print_config = elim (load_config host flags) [
    | err e ↦ none
    | ok (config, provenance) ↦
        if print_config then none else some (log_effective_config show config provenance)
  ]
