-- ===== src/Systemd/Watcher/Laws.antt =====
-- What one signal adds to the channel.
use mathlib.Core.Path.{subst}
use mathlib.Core.List.{append-nil, append_assoc}
use helvilette.Prelude.{
  ℕ, ◌+◌, ◌≤◌, ◌≡◌, refl, sym, ap, ◌∙◌, String, Option, none, some, List, [], ◌∷◌, ◌++◌, length,
  length-append, arith, ltb, Bool-cases, inl, inr,
}
use helvilette.Prelude.Dict.{Dict}
use helvilette.Prelude.Subsequence.{
  IsSubsequence, IsSubsequence-refl, IsSubsequence-append, IsSubsequence-trans, IsSubsequence-nil,
}
use helvilette.Systemd.{UnitStatus, UnitEvent}
use helvilette.Systemd.Watcher.{create_unit_event, capacity, send, publish_event, handle_changes}

-- The events of a signal's changes: one for each unit that has a status.
abbrev pub made : Dict (Option UnitStatus) → (String → ℕ) → List UnitEvent
made [] clock = []
made ((name, none) ∷ changes) clock = made changes clock
made ((name, some status) ∷ changes) clock =
    create_unit_event name status (clock name) ∷ made changes clock

-- Some of the events are appended, in their order, up to the capacity, and all of them if they fit.
pub record IsAppended (events queue queue' : List UnitEvent) : Type 0 where
  pub ordered : IsSubsequence queue' (queue ++ events)
  pub bounded : length queue ≤ capacity → length queue' ≤ capacity
  pub complete : length queue + length events ≤ capacity → queue' ≡ queue ++ events

IsAppended-nil : (queue : List UnitEvent) → IsAppended [] queue queue
IsAppended-nil queue = record {
  ordered = rw (append-nil queue) (IsSubsequence-refl queue);
  bounded = λ h. h;
  complete = λ _. sym (append-nil queue);
}

send-IsAppended :
    (event : UnitEvent) (queue : List UnitEvent) → IsAppended (event ∷ []) queue (send event queue)
unfolding send
send-IsAppended event queue = elim (Bool-cases (ltb (length queue) capacity)) [
  | inl room ↦ rw room (record {
    ordered = IsSubsequence-refl (queue ++ event ∷ []);
    bounded = λ _. ground (arith, length-append queue (event ∷ []));
    complete = λ _. refl;
  })
  | inr full ↦ rw full (record {
    ordered =
        subst (λ l. IsSubsequence l (queue ++ event ∷ [])) (append-nil queue)
          (IsSubsequence-append (IsSubsequence-refl queue) (IsSubsequence-nil (event ∷ [])));
    bounded = λ h. h;
    complete = λ h. absurd (ground arith);
  })
]

pub IsAppended-append :
    (first second q q' q'' : List UnitEvent)
    → IsAppended first q q'
    → IsAppended second q' q''
    → IsAppended (first ++ second) q q''
IsAppended-append first second q q' q'' a b = record {
  ordered =
      subst (IsSubsequence q'') (append_assoc q first second) (
        IsSubsequence-trans (IsSubsequence-append a.ordered (IsSubsequence-refl second)) b.ordered);
  bounded = λ h. b.bounded (a.bounded h);
  complete = λ h.
      let same : q' ≡ q ++ first = a.complete (omega (arith, length-append first second)) in
      let fits : length q' + length second ≤ capacity =
        omega (arith, length-append first second, length-append q first, ap length same) in
      b.complete fits ∙ ap (λ l. l ++ second) same ∙ append_assoc q first second;
}

pub handle_changes-IsAppended :
    (changes : Dict (Option UnitStatus)) (clock : String → ℕ) (queue : List UnitEvent)
    → IsAppended (made changes clock) queue (handle_changes changes clock queue)
unfolding handle_changes publish_event
handle_changes-IsAppended [] clock queue = IsAppended-nil queue
handle_changes-IsAppended ((name, none) ∷ changes) clock queue =
    handle_changes-IsAppended changes clock queue
handle_changes-IsAppended ((name, some status) ∷ changes) clock queue =
    let event = create_unit_event name status (clock name) in
    let queue' = send event queue in
    IsAppended-append (event ∷ []) (made changes clock) queue queue'
      (handle_changes changes clock queue') (send-IsAppended event queue)
      (handle_changes-IsAppended changes clock queue')
