-- ===== src/Othela/Process/Laws.antt =====
-- How the process of cmd/othela/main.go ends.
use helvilette.Prelude.{
  ℕ, String, ◌≡◌, ◌⊎◌, refl, ap, inl, inr, Option, Option-cases, none, some, Result-cases, ok, err,
  List, [], ◌∷◌, map, Any, arith,
}
use helvilette.FilePath.{dir}
use helvilette.Storage.{NodeStore, ReportStore}
use helvilette.Storage.Sqlite.{Engine, new_sqlite_store}
use helvilette.Playbook.Loader.{Disk}
use helvilette.Server.{Server, Decoder}
use helvilette.Server.Routes.{Mux}
use helvilette.Server.Trace.{run}
use helvilette.Othela.{
  Flags, default_flags, db_path, Wake, signal, serve_error, stopped, fatal, shutdown,
  removed_flag_error,
}
use helvilette.Othela.RemovedFlag.{IsRemoved, removed_flag_error_iff}
use helvilette.Othela.Drain.{close_all-map}
use helvilette.Othela.Process.{
  Parsed, help, misparsed, parsed, helped, Life, Ended, refused, exited, exit_status, closers,
  start_othela, run_othela, othela_main,
}

Parsed-cases :
    (p : Parsed)
    → (p ≡ help) ⊎ ((e : String) × (p ≡ misparsed e)) ⊎ ((flags : Flags) × (p ≡ parsed flags))
Parsed-cases help = inl refl
Parsed-cases (misparsed e) = inr (inl (e, refl))
Parsed-cases (parsed flags) = inr (inr (flags, refl))

-- The resources that are open while the process serves.
abbrev pub opened : Engine → Flags → List String
opened E flags = elim (new_sqlite_store E dir (db_path flags.state_dir)) [
  | err e ↦ []
  | ok db ↦ db_path flags.state_dir ∷ []
]

closers-opened :
    (E : Engine) (disk : Disk) (flags : Flags) (closing : Option String)
    → map (λ c. c.0) (closers E disk flags closing) ≡ opened E flags
unfolding closers
closers-opened E disk flags closing =
    elim (Result-cases (new_sqlite_store E dir (db_path flags.state_dir))) [
      | inl (e, failed) ↦ ground arith
      | inr (db, fine) ↦ ground arith
    ]

module _ {N : NodeStore} {R : ReportStore} (drained : Option String)
    (cs : List (String × Option String)) (s : Server N R) where
  shutdown-error : (e : String) → (shutdown (serve_error e) drained cs s).1 ≡ fatal e
  unfolding shutdown
  shutdown-error e = refl

  shutdown-late : (e : String) → drained ≡ some e → (shutdown signal drained cs s).1 ≡ fatal e
  unfolding shutdown
  shutdown-late e late = ground arith

  shutdown-drained : drained ≡ none → (shutdown signal drained cs s).1 ≡ stopped (map (λ c. c.0) cs)
  unfolding shutdown
  shutdown-drained fine = ground (arith, close_all-map cs)

Wake-cases : (w : Wake) → (w ≡ signal) ⊎ ((e : String) × (w ≡ serve_error e))
Wake-cases signal = inl refl
Wake-cases (serve_error e) = inr (e, refl)

module _ (E : Engine) (disk : Disk) (decoder : Decoder) (mux : Mux) (decimal : ℕ → String)
    (env now : String) (parse : Flags → List String → Parsed) (args : List String)
    (life : Life) where
  abbrev main : Ended
  main = othela_main E disk decoder mux decimal env now parse args life

  main-refuses : (m : String) → removed_flag_error args ≡ some m → main ≡ refused m
  unfolding othela_main
  main-refuses m h = ground arith

  main-helps : removed_flag_error args ≡ none → parse default_flags args ≡ help → main ≡ helped
  unfolding othela_main
  main-helps kept h = ground arith

  main-misparses :
      (e : String)
      → removed_flag_error args ≡ none
      → parse default_flags args ≡ misparsed e
      → main ≡ refused e
  unfolding othela_main
  main-misparses e kept h = ground arith

  main-runs :
      (flags : Flags)
      → removed_flag_error args ≡ none
      → parse default_flags args ≡ parsed flags
      → main ≡ exited (run_othela E disk decoder mux decimal env now flags life).1
  unfolding othela_main
  main-runs flags kept h = ground arith

  -- How the process ends with given flags.
  abbrev pub Served : Flags → Type 0
  Served flags =
      ((life.wake ≡ signal)
        × (life.drained ≡ none)
        × (main ≡ exited (stopped (opened E flags)))
        × (exit_status main ≡ 0))
      ⊎ ((life.wake ≡ signal)
          × ((e : String) × (life.drained ≡ some e)
              × (main ≡ exited (fatal e))
              × (exit_status main ≡ 1)))
      ⊎ ((e : String) × (life.wake ≡ serve_error e)
          × (main ≡ exited (fatal e))
          × (exit_status main ≡ 1))

  main-Served :
      (flags : Flags)
      → removed_flag_error args ≡ none
      → parse default_flags args ≡ parsed flags
      → Served flags
  unfolding run_othela exit_status
  main-Served flags kept fine =
      let runs = main-runs flags kept fine in
      let cs = closers E disk flags life.closing in
      let s = run decoder mux (start_othela E disk decoder mux decimal env now flags) life.served in
      elim (Wake-cases life.wake) [
        | inr (e, broke) ↦
            let same : main ≡ exited (fatal e) =
              ground (arith, runs, shutdown-error life.drained cs s e) in
            inr (inr (e, broke, same, ap exit_status same))
        | inl woken ↦ elim (Option-cases life.drained) [
          | inl drained ↦
              let same : main ≡ exited (stopped (opened E flags)) = ground (
                arith,
                runs,
                shutdown-drained life.drained cs s drained,
                closers-opened E disk flags life.closing,
              ) in
              inl (woken, drained, same, ap exit_status same)
          | inr (e, late) ↦
              let same : main ≡ exited (fatal e) =
                ground (arith, runs, shutdown-late life.drained cs s e late) in
              inr (inl (woken, (e, late, same, ap exit_status same)))
        ]
      ]

  -- How the process of the control plane ends. Where an argument is the removed flag, or where
  -- cobra finds an error in the arguments, it ends with 1; where they ask for help, with 0. Where
  -- they are flags, it serves: it ends with 0 if a signal woke it and the drain was in time, and
  -- has then closed the database that it opened, if it did, also where the closing failed; and it
  -- ends with 1 and the error if the drain was late, or if the listener failed before any signal.
  pub othela_main-Closes :
      (Any IsRemoved args × (exit_status main ≡ 1))
      ⊎ ((¬ Any IsRemoved args)
          × (((parse default_flags args ≡ help) × (exit_status main ≡ 0))
              ⊎ ((e : String) × (parse default_flags args ≡ misparsed e)
                  × (main ≡ refused e)
                  × (exit_status main ≡ 1))
              ⊎ ((flags : Flags) × (parse default_flags args ≡ parsed flags) × Served flags)))
  unfolding exit_status
  othela_main-Closes = elim (Option-cases (removed_flag_error args)) [
    | inr (m, old) ↦
        inl ((removed_flag_error_iff args).0 (λ kept. cc), ap exit_status (main-refuses m old))
    | inl kept ↦
        let allowed : ¬ Any IsRemoved args = λ old. (removed_flag_error_iff args).1 old kept in
        inr (
          allowed,
          elim (Parsed-cases (parse default_flags args)) [
            | inl asked ↦ inl (asked, ap exit_status (main-helps kept asked))
            | inr (inl (e, bad)) ↦
                let same = main-misparses e kept bad in
                inr (inl (e, bad, same, ap exit_status same))
            | inr (inr (flags, fine)) ↦ inr (inr (flags, fine, main-Served flags kept fine))
          ],
        )
  ]
