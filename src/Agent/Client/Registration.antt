-- ===== src/Agent/Client/Registration.antt =====
-- How `RegisterNode` of cmd/agent/main.go ends.
use helvilette.Prelude.{
  ℕ, zero, suc, ◌<◌, String, Bool, true, false, Bool-cases, ◌≡◌, ◌↔◌, refl, inl, inr, some, none,
  Result, List, [], ◌∷◌, length, arith, All,
}
use helvilette.FilePath.{◌<>◌}
use helvilette.Agent.{AgentConfiguration}
use helvilette.Agent.Client.{HttpResponse, Client, is_accepted, register_node}

-- The context is not cancelled in this round.
abbrev pub Uncancelled : Bool × Bool → Type 0
Uncancelled (before, during) = (before ≡ false) × (during ≡ false)

-- The rounds reach the attempt after the first `k` before the context is cancelled.
abbrev pub Reaches : ℕ → List (Bool × Bool) → Type 0
Reaches k [] = ⊥
Reaches zero ((before, during) ∷ rounds) = before ≡ false
Reaches (suc k) (round ∷ rounds) = Uncancelled round × Reaches k rounds

module _ {W Duration : Type 0} (C : Client W) (config : AgentConfiguration Duration) where
  abbrev pub attempt : W → W × Result String HttpResponse
  attempt w =
      C.post w (config.othela_url <> "/nodes/register")
        (C.marshal_registration config.node_id config.labels)

  -- The world after some attempts.
  abbrev pub attempts : ℕ → W → W
  attempts zero w = w
  attempts (suc n) w = attempts n (attempt w).0

  -- The answer to the attempt that follows the first `n`.
  abbrev pub answer : ℕ → W → Result String HttpResponse
  answer n w = (attempt (attempts n w)).1

  -- None of the first `k` attempts is answered with 200.
  abbrev pub Refused : ℕ → W → Type 0
  Refused k w = (j : ℕ) → j < k → is_accepted (answer j w) ≡ false

  -- The attempt after the first `k` is answered with 200, and none before it is.
  abbrev pub IsFirstAccepted : ℕ → W → Type 0
  IsFirstAccepted k w = (is_accepted (answer k w) ≡ true) × Refused k w

  Refused-suc :
      (k : ℕ) (w : W)
      → is_accepted (attempt w).1 ≡ false
      → Refused k (attempt w).0
      → Refused (suc k) w
  Refused-suc k w refused later zero _ = refused
  Refused-suc k w refused later (suc j) lt = later j (omega arith)

  sooner :
      (k : ℕ) (w : W)
      → is_accepted (attempt w).1 ≡ false
      → IsFirstAccepted k (attempt w).0
      → IsFirstAccepted (suc k) w
  sooner k w refused first = (first.0, Refused-suc k w refused first.1)

  -- A registration has not returned exactly while its context is not cancelled and every attempt so
  -- far was refused.
  pub register_node-none_iff :
      (rounds : List (Bool × Bool)) (w : W)
      → ((register_node C config rounds w).1 ≡ none)
        ↔ (All Uncancelled rounds × Refused (length rounds) w)
  unfolding register_node
  register_node-none_iff [] w = (λ _. (tt, λ j lt. absurd (omega arith)), λ _. refl)
  register_node-none_iff ((true, during) ∷ rounds) w =
      (λ h. absurd (cc), λ ((u, _), _). absurd (cc))
  register_node-none_iff ((false, during) ∷ rounds) w =
      elim (Bool-cases (is_accepted (attempt w).1)) [
        | inl now ↦
            (λ h. absurd (ground arith), λ (_, bad). absurd (cc (now, bad zero (omega arith))))
        | inr refused ↦ elim (Bool-cases during) [
          | inl stopped ↦ (λ h. absurd (ground arith), λ ((u, _), _). absurd (cc))
          | inr waits ↦
              let later = register_node-none_iff rounds (attempt w).0 in
              (
                λ h.
                    let (us, bad) = later.0 (ground arith) in
                    (((refl, waits), us), Refused-suc (length rounds) w refused bad),
                λ ((_, us), bad).
                    let rest = later.1 (us, λ j lt. bad (suc j) (omega arith)) in ground arith,
              )
        ]
      ]

  Reaches-head :
      (k : ℕ) (before during : Bool) (rounds : List (Bool × Bool))
      → Reaches k ((before, during) ∷ rounds)
      → before ≡ false
  Reaches-head zero before during rounds reached = reached
  Reaches-head (suc k) before during rounds ((calm, _), _) = calm

  Reaches-tail :
      (k : ℕ) (before during : Bool) (rounds : List (Bool × Bool)) (w : W)
      → is_accepted (attempt w).1 ≡ false
      → Reaches k ((before, during) ∷ rounds)
      → IsFirstAccepted k w
      → (during ≡ false) × ((n : ℕ) × Reaches n rounds × IsFirstAccepted n (attempt w).0)
  Reaches-tail zero before during rounds w refused reached (now, _) = absurd (cc)
  Reaches-tail (suc k) before during rounds w refused ((_, waits), reached) (now, bad) =
      (waits, (k, reached, (now, λ j lt. bad (suc j) (omega arith))))

  -- A registration returns success exactly if its rounds reach the first attempt that is accepted.
  pub register_node-some_iff :
      (rounds : List (Bool × Bool)) (w : W)
      → ((register_node C config rounds w).1 ≡ some true)
        ↔ ((k : ℕ) × Reaches k rounds × IsFirstAccepted k w)
  unfolding register_node
  register_node-some_iff [] w = (λ h. absurd (cc), λ (k, reached, _). absurd reached)
  register_node-some_iff ((true, during) ∷ rounds) w = (
    λ h. absurd (cc),
    λ (k, reached, _). let e = Reaches-head k true during rounds reached in absurd (cc),
  )
  register_node-some_iff ((false, during) ∷ rounds) w =
      elim (Bool-cases (is_accepted (attempt w).1)) [
        | inl now ↦ (λ _. (zero, refl, (now, λ j lt. absurd (omega arith))), λ _. ground arith)
        | inr refused ↦ elim (Bool-cases during) [
          | inl stopped ↦ (
            λ h. absurd (ground arith),
            λ (k, reached, first).
                let (e, _) = Reaches-tail k false during rounds w refused reached first in
                absurd (cc),
          )
          | inr waits ↦
              let later = register_node-some_iff rounds (attempt w).0 in
              (
                λ h.
                    let (k, reached, first) = later.0 (ground arith) in
                    (suc k, ((refl, waits), reached), sooner k w refused first),
                λ (k, reached, first).
                    let (_, rest) = Reaches-tail k false during rounds w refused reached first in
                    let done = later.1 rest in ground arith,
              )
        ]
      ]

  -- Where the context is not cancelled and Othela would accept the attempt after the first `n`, a
  -- registration with more than `n` rounds returns success right after the first attempt that is
  -- accepted, and has then made no other.
  pub register_node-IsFirstAccepted :
      (n : ℕ) (rounds : List (Bool × Bool)) (w : W)
      → n < length rounds
      → All Uncancelled rounds
      → is_accepted (answer n w) ≡ true
      → (k : ℕ) × (k < suc n)
        × IsFirstAccepted k w
        × (register_node C config rounds w ≡ (attempts (suc k) w, some true))
  unfolding register_node
  register_node-IsFirstAccepted n [] w lt _ _ = absurd (omega arith)
  register_node-IsFirstAccepted zero ((before, during) ∷ rounds) w lt (u, us) accepted =
      (zero, omega arith, (accepted, λ j h. absurd (omega arith)), ground arith)
  register_node-IsFirstAccepted (suc n) ((before, during) ∷ rounds) w lt (u, us) accepted =
      elim (Bool-cases (is_accepted (attempt w).1)) [
        | inl now ↦ (zero, omega arith, (now, λ j h. absurd (omega arith)), ground arith)
        | inr refused ↦
            let (k, le, first, done) =
              register_node-IsFirstAccepted n rounds (attempt w).0 (omega arith) us accepted in
            (suc k, omega arith, sooner k w refused first, ground arith)
      ]
