-- ===== src/Agent/Main/Running.antt =====
-- When `main` of cmd/agent/main.go is still in `Run`.
use helvilette.Prelude.{
  ℕ, Bool, true, Bool-cases, Option-cases, ◌≡◌, refl, ◌↔◌, ◌⊎◌, inl, inr, none, some, List, [], ◌∷◌,
  length, All, arith,
}
use helvilette.Agent.{AgentConfiguration}
use helvilette.Agent.Execute.{Machine}
use helvilette.Agent.Client.{Client, register_node}
use helvilette.Agent.Client.Registration.{
  Uncancelled, Refused, Reaches, IsFirstAccepted, register_node-none_iff, register_node-some_iff,
}
use helvilette.Agent.Process.{
  Agent, Select, ticked, cancelled, Progress, registering, polling, ended, new_agent, tick, loop,
  run,
}
use helvilette.Agent.Main.{exit_code, after_run}

after_run-none_iff :
    (progress : Progress)
    → (exit_code (after_run progress) ≡ none) ↔ ((progress ≡ registering) ⊎ (progress ≡ polling))
unfolding exit_code
after_run-none_iff registering = (λ _. inl refl, λ _. refl)
after_run-none_iff polling = (λ _. inr refl, λ _. refl)
after_run-none_iff ended =
    (λ h. absurd (cc), λ h. elim h [ inl e ↦ absurd (cc) | inr e ↦ absurd (cc) ])

abbrev pub IsTick : Select → Type 0
IsTick select = select ≡ ticked

module _ {W Duration : Type 0} (M : Machine W) (C : Client W) where
  loop-registering :
      (selects : List Select) (st : Agent Duration × W) → ¬ ((loop M C selects st).1 ≡ registering)
  unfolding loop
  loop-registering [] st h = cc
  loop-registering (ticked ∷ selects) st h = loop-registering selects (tick M C st) h
  loop-registering (cancelled ∷ selects) st h = cc

  loop-polling_iff :
      (selects : List Select) (st : Agent Duration × W)
      → ((loop M C selects st).1 ≡ polling) ↔ All IsTick selects
  unfolding loop
  loop-polling_iff [] st = (λ _. tt, λ _. refl)
  loop-polling_iff (ticked ∷ selects) st =
      let later = loop-polling_iff selects (tick M C st) in
      (λ h. (refl, later.0 h), λ (_, all). later.1 all)
  loop-polling_iff (cancelled ∷ selects) st = (λ h. absurd (cc), λ (e, _). absurd (cc))

  module _ (config : AgentConfiguration Duration) (rounds : List (Bool × Bool))
      (selects : List Select) (w : W) where
    -- The agent registers, uncancelled and refused in every round; or it was accepted, and its loop
    -- has received only ticks.
    abbrev pub IsRunning : Type 0
    IsRunning =
        (All Uncancelled rounds × Refused C config (length rounds) w)
        ⊎ ((k : ℕ) × Reaches k rounds × IsFirstAccepted C config k w × All IsTick selects)

    run-registering_iff :
        ((run M C rounds selects (new_agent config, w)).1 ≡ registering)
        ↔ ((register_node C config rounds w).1 ≡ none)
    unfolding run
    run-registering_iff = elim (Option-cases (register_node C config rounds w).1) [
      | inl waits ↦ (λ _. waits, λ _. ground arith)
      | inr (b, done) ↦ elim (Bool-cases b) [
        | inl joined ↦
            let st : Agent Duration × W = (new_agent config, (register_node C config rounds w).0) in
            (λ h. absurd (loop-registering selects st (ground arith)), λ missing. absurd (cc))
        | inr stops ↦ (λ h. absurd (ground arith), λ missing. absurd (cc))
      ]
    ]

    run-polling_iff :
        ((run M C rounds selects (new_agent config, w)).1 ≡ polling)
        ↔ (((register_node C config rounds w).1 ≡ some true) × All IsTick selects)
    unfolding run
    run-polling_iff = elim (Option-cases (register_node C config rounds w).1) [
      | inl waits ↦ (λ h. absurd (ground arith), λ (joined, _). absurd (cc))
      | inr (b, done) ↦ elim (Bool-cases b) [
        | inl joined ↦
            let later =
              loop-polling_iff selects (new_agent config, (register_node C config rounds w).0) in
            (
              λ h. (ground arith, later.0 (ground arith)),
              λ (_, all). let l = later.1 all in ground arith,
            )
        | inr stops ↦ (λ h. absurd (ground arith), λ (joined, _). absurd (ground arith))
      ]
    ]

    pub run-IsRunning :
        (exit_code (after_run (run M C rounds selects (new_agent config, w)).1) ≡ none) ↔ IsRunning
    run-IsRunning =
        let code = after_run-none_iff (run M C rounds selects (new_agent config, w)).1 in
        let accepted = register_node-some_iff C config rounds w in
        (
          λ h. elim (code.0 h) [
            | inl early ↦
                inl ((register_node-none_iff C config rounds w).0 (run-registering_iff.0 early))
            | inr late ↦
                let (joined, all) = run-polling_iff.0 late in
                let (k, reached, first) = accepted.0 joined in inr (k, reached, first, all)
          ],
          λ h. elim h [
            | inl refused ↦
                code.1 (
                  inl
                    (run-registering_iff.1 ((register_node-none_iff C config rounds w).1 refused)))
            | inr (k, reached, first, all) ↦
                code.1 (inr (run-polling_iff.1 (accepted.1 (k, reached, first), all)))
          ],
        )
