-- ===== src/Agent/Main/Laws.antt =====
-- The exit code of `main` of cmd/agent/main.go.
use mathlib.Core.Path.{subst}
use helvilette.Prelude.{
  String, Bool, true, false, Bool-cases, Result-cases, ◌≡◌, refl, sym, ap, ◌∙◌, ◌↔◌, inl, inr, none,
  some, ok, err, List, arith,
}
use helvilette.Agent.Settings.{Host, Flags, ConfigError}
use helvilette.Agent.Config.{State, load_config}
use helvilette.Agent.Display.{format_config}
use helvilette.Agent.Execute.{Machine}
use helvilette.Agent.Client.{Client}
use helvilette.Agent.Process.{Select, new_agent, run}
use helvilette.Agent.Main.{
  Outcome, unconfigured, printed, exit_code, after_run, start_agent, agent_main,
}
use helvilette.Agent.Main.Running.{IsRunning, run-IsRunning}

unconfigured-code : (e : ConfigError) → exit_code (unconfigured e) ≡ some 1
unfolding exit_code
unconfigured-code e = refl

printed-code : (text : String) → exit_code (printed text) ≡ some 0
unfolding exit_code
printed-code text = refl

module _ {W Duration : Type 0} (M : Machine W) (C : Client W) (host : Host Duration)
    (show : Duration → String) (flags : Flags) (print_config : Bool) (rounds : List (Bool × Bool))
    (selects : List Select) (w : W) where
  abbrev main : W × Outcome
  main = agent_main M C host show flags print_config rounds selects w

  main-refused : (e : ConfigError) → load_config host flags ≡ err e → main ≡ (w, unconfigured e)
  unfolding agent_main
  main-refused e bad = ground arith

  main-printing :
      (st : State Duration)
      → load_config host flags ≡ ok st
      → print_config ≡ true
      → main ≡ (w, printed (format_config show st.0 st.1))
  unfolding agent_main
  main-printing st fine on = ground arith

  main-running :
      (st : State Duration)
      → load_config host flags ≡ ok st
      → print_config ≡ false
      → main.1 ≡ after_run (run M C rounds selects (new_agent st.0, w)).1
  unfolding agent_main start_agent
  main-running st fine off = ground arith

  -- The agent's command is still running, after these rounds and after what its loop then received,
  -- exactly when its configuration loads and is not to be printed, and one of two holds: in all the
  -- rounds it was neither cancelled nor accepted by Othela; or the rounds reach the first attempt
  -- that Othela accepts before they are cancelled, and the loop received ticks only. So once an
  -- agent is started, only a cancellation ends the command.
  pub agent_main-IsRunning : (exit_code main.1 ≡ none) ↔ (
      (print_config ≡ false)
      × ((st : State Duration) × (load_config host flags ≡ ok st)
          × IsRunning M C st.0 rounds selects w))
  agent_main-IsRunning = elim (Result-cases (load_config host flags)) [
    | inl (e, bad) ↦
        let code = ap (λ r. exit_code r.1) (main-refused e bad) ∙ unconfigured-code e in
        (λ h. absurd (cc), λ (_, (st, fine, _)). absurd (cc))
    | inr (st, fine) ↦ elim (Bool-cases print_config) [
      | inl on ↦
          let code =
            ap (λ r. exit_code r.1) (main-printing st fine on)
            ∙ printed-code (format_config show st.0 st.1) in
          (λ h. absurd (cc), λ (off, _). absurd (cc))
      | inr off ↦
          let code = ap exit_code (main-running st fine off) in
          let runs = run-IsRunning M C st.0 rounds selects w in
          (
            λ h. (off, (st, fine, runs.0 (sym code ∙ h))),
            λ (_, (st', fine', rest)).
                let same : st' ≡ st = ground arith in
                code ∙ runs.1 (subst (λ x. IsRunning M C x.0 rounds selects w) same rest),
          )
    ]
  ]
