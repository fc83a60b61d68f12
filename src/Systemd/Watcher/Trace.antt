-- ===== src/Systemd/Watcher/Trace.antt =====
-- The stream of events through any interleaving of signals, cancellation and receives.
use mathlib.Core.Path.{subst}
use mathlib.Core.List.{append-nil, append_assoc}
use native.Mathlib.Decide.{dec_lt}
use helvilette.Prelude.{
  ℕ, String, Option, ◌+◌, ◌≤◌, ◌<◌, ◌⊎◌, ◌≡◌, refl, sym, ap, ◌∙◌, true, false, inl, inr, List, [],
  ◌∷◌, ◌++◌, length, length-append, arith,
}
use helvilette.Prelude.Dict.{Dict}
use helvilette.Prelude.Subsequence.{
  IsSubsequence, IsSubsequence-refl, IsSubsequence-append, IsSubsequence-trans,
}
use helvilette.Systemd.{UnitStatus, UnitEvent}
use helvilette.Systemd.Watcher.{
  Action, cancelled, changed, failed, receive, Stream, new_stream, receive_event, capacity,
  handle_changes, process_event, process_events,
}
use helvilette.Systemd.Watcher.Laws.{made, IsAppended, handle_changes-IsAppended}

-- The events of the signals that come before the cancellation.
abbrev pub offered : List Action → List UnitEvent
offered [] = []
offered (cancelled ∷ actions) = []
offered (changed changes clock ∷ actions) = made changes clock ++ offered actions
offered (failed e ∷ actions) = offered actions
offered (receive ∷ actions) = offered actions

-- What the agent has received and what waits in the channel.
abbrev pub delivered : Stream → List UnitEvent
delivered s = s.received ++ s.queue

-- One action offers `events`.
record IsKept (events : List UnitEvent) (s s' : Stream) : Type 0 where
  ordered : IsSubsequence (delivered s') (delivered s ++ events)
  bounded : length s.queue ≤ capacity → length s'.queue ≤ capacity
  complete : length s.queue + length events ≤ capacity → delivered s' ≡ delivered s ++ events
  shrinks :
      length s.queue + length events ≤ capacity → length s'.queue ≤ length s.queue + length events

same-IsKept :
    (s s' : Stream) → delivered s' ≡ delivered s → length s'.queue ≤ length s.queue → IsKept [] s s'
same-IsKept s s' same shorter = record {
  ordered =
      subst (λ l. IsSubsequence l (delivered s ++ [])) (append-nil (delivered s) ∙ sym same)
        (IsSubsequence-refl (delivered s ++ []));
  bounded = λ h. omega arith;
  complete = λ h. same ∙ sym (append-nil (delivered s));
  shrinks = λ h. omega arith;
}

receive_event-delivered :
    (queue : List UnitEvent) (s : Stream)
    → s.queue ≡ queue
    → (delivered (receive_event queue s) ≡ delivered s)
      × (length (receive_event queue s).queue ≤ length s.queue)
      × ((receive_event queue s).closed ≡ s.closed)
unfolding receive_event
receive_event-delivered [] s same = (refl, omega arith, refl)
receive_event-delivered (event ∷ queue) s same = (
  append_assoc s.received (event ∷ []) queue ∙ ap (λ l. s.received ++ l) (sym same),
  omega (arith, ap length same),
  refl,
)

receive-IsKept : (s : Stream) → IsKept [] s (process_event receive s)
unfolding process_event
receive-IsKept s =
    let (same, shorter, _) = receive_event-delivered s.queue s refl in
    same-IsKept s (process_event receive s) same shorter

changed-IsKept :
    (events queue' : List UnitEvent) (s : Stream)
    → IsAppended events s.queue queue'
    → IsKept events s (record s { queue = queue' })
changed-IsKept events queue' s a = record {
  ordered =
      subst (IsSubsequence (s.received ++ queue')) (sym (append_assoc s.received s.queue events))
        (IsSubsequence-append (IsSubsequence-refl s.received) a.ordered);
  bounded = a.bounded;
  complete =
      λ h. ap (λ l. s.received ++ l) (a.complete h) ∙ sym (append_assoc s.received s.queue events);
  shrinks = λ h. omega (arith, ap length (a.complete h), length-append s.queue events);
}

IsKept-append :
    (first second : List UnitEvent) (s t u : Stream)
    → IsKept first s t
    → IsKept second t u
    → IsKept (first ++ second) s u
IsKept-append first second s t u a b = record {
  ordered =
      subst (IsSubsequence (delivered u)) (append_assoc (delivered s) first second) (
        IsSubsequence-trans (IsSubsequence-append a.ordered (IsSubsequence-refl second)) b.ordered);
  bounded = λ h. b.bounded (a.bounded h);
  complete = λ h.
      let fits : length s.queue + length first ≤ capacity =
        omega (arith, length-append first second) in
      let later : length t.queue + length second ≤ capacity =
        omega (arith, length-append first second, a.shrinks fits) in
      b.complete later
      ∙ ap (λ l. l ++ second) (a.complete fits)
      ∙ append_assoc (delivered s) first second;
  shrinks = λ h.
      let fits : length s.queue + length first ≤ capacity =
        omega (arith, length-append first second) in
      let later : length t.queue + length second ≤ capacity =
        omega (arith, length-append first second, a.shrinks fits) in
      omega (arith, length-append first second, a.shrinks fits, b.shrinks later);
}

changed_closed :
    (changes : Dict (Option UnitStatus)) (clock : String → ℕ) (s : Stream)
    → s.closed ≡ true
    → process_event (changed changes clock) s ≡ s
unfolding process_event
changed_closed changes clock s h = ground arith

changed_open :
    (changes : Dict (Option UnitStatus)) (clock : String → ℕ) (s : Stream)
    → s.closed ≡ false
    → process_event (changed changes clock) s
      ≡ record s { queue = handle_changes changes clock s.queue }
unfolding process_event
changed_open changes clock s h = ground arith

-- Once the channel is closed, nothing is added to it.
closed_step :
    (action : Action) (s : Stream)
    → s.closed ≡ true
    → IsKept [] s (process_event action s) × ((process_event action s).closed ≡ true)
unfolding process_event
closed_step cancelled s h = (same-IsKept s (process_event cancelled s) refl (omega arith), refl)
closed_step (changed changes clock) s h =
    let same = changed_closed changes clock s h in
    (
      subst (IsKept [] s) (sym same) (same-IsKept s s refl (omega arith)),
      ap (λ (t : Stream). t.closed) same ∙ h,
    )
closed_step (failed e) s h = (same-IsKept s s refl (omega arith), h)
closed_step receive s h = (receive-IsKept s, (receive_event-delivered s.queue s refl).2 ∙ h)

closed-IsKept :
    (actions : List Action) (s : Stream) → s.closed ≡ true → IsKept [] s (process_events actions s)
unfolding process_events
closed-IsKept [] s h = same-IsKept s s refl (omega arith)
closed-IsKept (action ∷ actions) s h =
    let t = process_event action s in
    let (now, still) = closed_step action s h in
    IsKept-append [] [] s t (process_events actions t) now (closed-IsKept actions t still)

cancelled-IsKept : (s : Stream) → IsKept [] s (process_event cancelled s)
unfolding process_event
cancelled-IsKept s = same-IsKept s (record s { closed = true }) refl (omega arith)

cancelled_closes : (s : Stream) → (process_event cancelled s).closed ≡ true
unfolding process_event
cancelled_closes s = refl

failed_keeps : (e : String) (s : Stream) → process_event (failed e) s ≡ s
unfolding process_event
failed_keeps e s = refl

receive_closed : (s : Stream) → (process_event receive s).closed ≡ s.closed
unfolding process_event
receive_closed s = (receive_event-delivered s.queue s refl).2

open-IsKept :
    (actions : List Action) (s : Stream)
    → s.closed ≡ false
    → IsKept (offered actions) s (process_events actions s)
unfolding process_events
open-IsKept [] s h = same-IsKept s s refl (omega arith)
open-IsKept (cancelled ∷ actions) s h =
    let t = process_event cancelled s in
    IsKept-append [] [] s t (process_events actions t) (cancelled-IsKept s)
      (closed-IsKept actions t (cancelled_closes s))
open-IsKept (changed changes clock ∷ actions) s h =
    let t : Stream = record s { queue = handle_changes changes clock s.queue } in
    subst (λ u. IsKept (made changes clock ++ offered actions) s (process_events actions u))
      (sym (changed_open changes clock s h))
      (IsKept-append (made changes clock) (offered actions) s t (process_events actions t)
        (changed-IsKept (made changes clock) t.queue s
          (handle_changes-IsAppended changes clock s.queue))
        (open-IsKept actions t h))
open-IsKept (failed e ∷ actions) s h =
    subst (λ u. IsKept (offered actions) s (process_events actions u)) (sym (failed_keeps e s))
      (open-IsKept actions s h)
open-IsKept (receive ∷ actions) s h =
    let t = process_event receive s in
    IsKept-append [] (offered actions) s t (process_events actions t) (receive-IsKept s)
      (open-IsKept actions t (receive_closed s ∙ h))

-- Through any interleaving of signals, errors, receives and a cancellation, what the agent has received
-- and what waits in the channel are some of the events of the signals before the cancellation, in
-- their order; at most 100 wait at a time; and none is lost, unless more than 100 are made at all.
pub process_events-delivered :
    (actions : List Action)
    → IsSubsequence (delivered (process_events actions new_stream)) (offered actions)
      × (length (process_events actions new_stream).queue ≤ 100)
      × ((delivered (process_events actions new_stream) ≡ offered actions)
          ⊎ (100 < length (offered actions)))
process_events-delivered actions =
    let kept = open-IsKept actions new_stream refl in
    (
      kept.ordered,
      kept.bounded (omega arith),
      elim (dec_lt 100 (length (offered actions))) [
        | yes many ↦ inr many
        | no few ↦ inl (kept.complete (omega arith))
      ],
    )
