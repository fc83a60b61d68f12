-- ===== src/Systemd/Watcher/Subscription/Laws.antt =====
-- Which units the agent hears of, given what go-systemd does with the filter.
use mathlib.Core.Path.{subst}
use helvilette.Prelude.{
  ℕ, String, false, ◌≡◌, ◌≢◌, sym, Option, Option-cases, none, some, ok, List, [], ◌∷◌, All,
  All-append, In, inl, inr, arith,
}
use helvilette.Prelude.Subsequence.{IsSubsequence, nil, keep, skip}
use helvilette.Systemd.{UnitStatus, UnitEvent}
use helvilette.Systemd.Watcher.{
  Action, cancelled, changed, failed, receive, new_stream, new_watcher, is_unit_watched,
  is_state_changed, process_events,
}
use helvilette.Systemd.Watcher.Laws.{made}
use helvilette.Systemd.Watcher.Trace.{offered, delivered, process_events-delivered}
use helvilette.Systemd.Watcher.Watched.{is_unit_watched-new_watcher}
use helvilette.Systemd.Watcher.Subscription.{Changes, Connection, LeavesOut, subscribe_units, watch}

-- The signals among the actions.
abbrev pub signals_of : List Action → List Changes
signals_of [] = []
signals_of (cancelled ∷ actions) = signals_of actions
signals_of (changed changes clock ∷ actions) = changes ∷ signals_of actions
signals_of (failed e ∷ actions) = signals_of actions
signals_of (receive ∷ actions) = signals_of actions

All-subsequence :
    {A : Type 0} (P : A → Type 0) {xs ys : List A} → IsSubsequence xs ys → All P ys → All P xs
All-subsequence P nil h = h
All-subsequence P (keep s) (p, h) = (p, All-subsequence P s h)
All-subsequence P (skip s) (p, h) = All-subsequence P s h

All-In : {A : Type 0} (P : A → Type 0) (a : A) (xs : List A) → All P xs → In a xs → P a
All-In P a [] h at = absurd at
All-In P a (x ∷ xs) (p, h) (inl same) = subst P same p
All-In P a (x ∷ xs) (p, h) (inr at) = All-In P a xs h at

module _ (units : List String) where
  -- The agent was to watch some units, and this is none of them.
  abbrev pub IsUnwatched : UnitEvent → Type 0
  IsUnwatched event = (units ≢ []) × ¬ In event.unit.name units

  abbrev IsFiltered : String × Option UnitStatus → Type 0
  IsFiltered change = is_unit_watched (new_watcher units) change.0 ≡ false

  unwatched :
      (name : String)
      → is_unit_watched (new_watcher units) name ≡ false
      → (units ≢ []) × ¬ In name units
  unwatched name h = (
    λ none. cc (h, (is_unit_watched-new_watcher units name).1 (inl none)),
    λ at. cc (h, (is_unit_watched-new_watcher units name).1 (inr at)),
  )

  made-IsUnwatched :
      (changes : Changes) (clock : String → ℕ)
      → All IsFiltered changes
      → All IsUnwatched (made changes clock)
  made-IsUnwatched [] clock _ = tt
  made-IsUnwatched ((name, none) ∷ changes) clock (_, h) = made-IsUnwatched changes clock h
  made-IsUnwatched ((name, some status) ∷ changes) clock (f, h) =
      (unwatched name f, made-IsUnwatched changes clock h)

  offered-IsUnwatched :
      (actions : List Action)
      → All (All IsFiltered) (signals_of actions)
      → All IsUnwatched (offered actions)
  offered-IsUnwatched [] _ = tt
  offered-IsUnwatched (cancelled ∷ actions) _ = tt
  offered-IsUnwatched (changed changes clock ∷ actions) (f, h) =
      All-append IsUnwatched (made changes clock) (offered actions)
        (made-IsUnwatched changes clock f) (offered-IsUnwatched actions h)
  offered-IsUnwatched (failed e ∷ actions) h = offered-IsUnwatched actions h
  offered-IsUnwatched (receive ∷ actions) h = offered-IsUnwatched actions h

among-IsFiltered :
    (units : List String) (signals : List Changes)
    → All (All (IsFiltered units)) signals
    → (chosen : List Changes) → All (λ changes. In changes signals) chosen
    → All (All (IsFiltered units)) chosen
among-IsFiltered units signals filtered [] _ = tt
among-IsFiltered units signals filtered (c ∷ chosen) (at, h) = (
  All-In (All (IsFiltered units)) c signals filtered at,
  among-IsFiltered units signals filtered chosen h,
)

watch-subscribe_units :
    (conn : Connection) (units : List String) (signals : List Changes)
    → watch conn (new_watcher units) ≡ ok signals
    → signals ≡ subscribe_units conn (new_watcher units)
unfolding watch
watch-subscribe_units conn units signals h = elim (Option-cases conn.subscribe) [
  | inl fine ↦ ground arith
  | inr (e, broken) ↦ absurd (ground arith)
]

-- Over a connection that leaves out the units for which the filter holds, the agent hears only of
-- units that it was not to watch, whatever is signalled and when; and of none at all if it was to
-- watch every unit.
pub watch-IsUnwatched :
    (conn : Connection) (units : List String) (signals : List Changes) (actions : List Action)
    → LeavesOut conn
    → watch conn (new_watcher units) ≡ ok signals
    → All (λ changes. In changes signals) (signals_of actions)
    → All (IsUnwatched units) (delivered (process_events actions new_stream))
unfolding subscribe_units
watch-IsUnwatched conn units signals actions leaves started among =
    let filtered =
      subst (All (All (IsFiltered units))) (sym (watch-subscribe_units conn units signals started))
        (leaves is_state_changed (is_unit_watched (new_watcher units))) in
    All-subsequence (IsUnwatched units) (process_events-delivered actions).0 (
      offered-IsUnwatched units actions
        (among-IsFiltered units signals filtered (signals_of actions) among))
