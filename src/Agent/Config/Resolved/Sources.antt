-- ===== src/Agent/Config/Resolved/Sources.antt =====
-- The defaults, the environment and the file of `LoadConfig` in cmd/agent/main.go, each by itself.
use mathlib.Core.Path.{subst}
use helvilette.Prelude.{
  String, ◌≡◌, refl, ap, ◌∙◌, ◌⊎◌, inl, inr, none, some, ok, arith, Result-cases, Option-cases,
  text-cases, eq_iff,
}
use helvilette.Prelude.Dict.{lookup, NodupKeys}
use helvilette.Agent.Config.{
  State, Host, Field, RawConfig, empty_raw, Decoded, value, eof, failed, othela_url, node_id,
  workspace_dir, env_name, raw_field, source_env, source_config_file, source_default,
  default_node_id, default_config, default_provenance, parse_labels, apply_env, apply_raw,
  override_interval, apply_decoded, file_interval, merge_labels, apply_file,
}
use helvilette.Agent.Config.Keys.{label_key_other, field_name-plain, interval_label-other}
use helvilette.Agent.Config.Stages.{
  field_of, interval_of, label_of, given, labelled, timed, merge_labels-field,
  merge_labels-interval, merge_labels-label, override_interval-field, override_interval-interval,
  override_interval-label,
}
use helvilette.Agent.Config.Precedence.{
  overridden-field, overridden-interval, overridden-label, raw_texts, raw_texts-field,
  raw_texts-interval, raw_texts-label,
}
use helvilette.Agent.Config.Resolved.{default_of, IsRead, DecodesMaps}

pub Decoded-cases :
    (d : Decoded)
    → ((raw : RawConfig) × (d ≡ value raw)) ⊎ (d ≡ eof) ⊎ ((e : String) × (d ≡ failed e))
Decoded-cases (value raw) = inl (raw, refl)
Decoded-cases eof = inr (inl refl)
Decoded-cases (failed e) = inr (inr (e, refl))

module _ {Duration : Type 0} (host : Host Duration) where
  abbrev pub start : State Duration
  start = (default_config host, default_provenance host)

  start-field : (f : Field) → field_of f start ≡ default_of host f
  unfolding default_config default_provenance default_node_id lookup
  start-field othela_url = refl
  start-field node_id = ground arith
  start-field workspace_dir = refl

  start-interval : interval_of start ≡ (host.five_seconds, some source_default)
  unfolding default_config default_provenance lookup
  start-interval = refl

  start-label : (k : String) → label_of k start ≡ (none, none)
  unfolding default_config default_provenance lookup
  start-label k = ground (
    arith,
    label_key_other k "othelaURL" (field_name-plain othela_url),
    label_key_other k "nodeID" (field_name-plain node_id),
    label_key_other k "workspaceDir" (field_name-plain workspace_dir),
    interval_label-other k,
  )

  -- The environment.
  unfoldable pub env : State Duration
  env = apply_env host start

  pub env-field :
      (f : Field)
      → field_of f env
        ≡ given (host.getenv (env_name f)) (source_env (env_name f)) (default_of host f)
  unfolding env apply_env
  env-field f =
      overridden-field host (λ f. host.getenv (env_name f)) (λ f. source_env (env_name f))
        (host.getenv "POLL_INTERVAL") (source_env "POLL_INTERVAL") (host.getenv "AGENT_LABELS")
        (source_env "AGENT_LABELS") start f
      ∙ ap (given (host.getenv (env_name f)) (source_env (env_name f))) (start-field f)

  pub env-interval :
      interval_of env
      ≡ timed host
          (host.getenv "POLL_INTERVAL")
          (source_env "POLL_INTERVAL")
          (host.five_seconds, some source_default)
  unfolding env apply_env
  env-interval =
      overridden-interval host (λ f. host.getenv (env_name f)) (λ f. source_env (env_name f))
        (host.getenv "POLL_INTERVAL") (source_env "POLL_INTERVAL") (host.getenv "AGENT_LABELS")
        (source_env "AGENT_LABELS") start
      ∙ ap (timed host (host.getenv "POLL_INTERVAL") (source_env "POLL_INTERVAL")) start-interval

  pub env-label :
      (k : String)
      → label_of k env
        ≡ labelled
            (lookup k (parse_labels (host.getenv "AGENT_LABELS")))
            (source_env "AGENT_LABELS")
            (none, none)
  unfolding env apply_env
  env-label k =
      overridden-label host (λ f. host.getenv (env_name f)) (λ f. source_env (env_name f))
        (host.getenv "POLL_INTERVAL") (source_env "POLL_INTERVAL") (host.getenv "AGENT_LABELS")
        (source_env "AGENT_LABELS") start k
      ∙ ap
          (labelled (lookup k (parse_labels (host.getenv "AGENT_LABELS")))
            (source_env "AGENT_LABELS"))
          (start-label k)

  -- What a file does to the configuration before it.
  pub record IsApplied (raw : RawConfig) (st st' : State Duration) : Type 0 where
    pub field :
        (f : Field) → field_of f st' ≡ given (raw_field f raw) source_config_file (field_of f st)
    pub interval :
        interval_of st' ≡ timed host raw.poll_interval source_config_file (interval_of st)
    pub label :
        (k : String)
        → label_of k st' ≡ labelled (lookup k raw.labels) source_config_file (label_of k st)

  file_interval-override :
      (v : String) (st st' : State Duration)
      → file_interval host v st ≡ ok st'
      → override_interval host v source_config_file st ≡ st'
  unfolding file_interval override_interval
  file_interval-override v (c, p) st' h = elim (Option-cases (host.parse_duration v)) [
    | inl bad ↦ ground arith
    | inr (d, parsed) ↦ ground arith
  ]

  abbrev merged : RawConfig → State Duration → State Duration
  merged raw st =
      merge_labels raw.labels source_config_file
        (override_interval host raw.poll_interval source_config_file (raw_texts raw st))

  apply_raw-merged :
      (raw : RawConfig) (st st' : State Duration)
      → apply_raw host raw st ≡ ok st'
      → merged raw st ≡ st'
  unfolding apply_raw
  apply_raw-merged raw st st' h =
      elim (Result-cases (file_interval host raw.poll_interval (raw_texts raw st))) [
        | inl (e, bad) ↦ absurd (ground arith)
        | inr (mid, fine) ↦
            ground (arith, file_interval-override raw.poll_interval (raw_texts raw st) mid fine)
      ]

  merged-IsApplied :
      (raw : RawConfig) (st : State Duration)
      → NodupKeys raw.labels
      → IsApplied raw st (merged raw st)
  merged-IsApplied raw st nodup =
      let texts = raw_texts raw st in
      let v = raw.poll_interval in
      let timed_texts = override_interval host v source_config_file texts in
      record {
        field = λ f.
            merge_labels-field f raw.labels source_config_file timed_texts
            ∙ override_interval-field f host v source_config_file texts
            ∙ raw_texts-field raw st f;
        interval =
            merge_labels-interval raw.labels source_config_file timed_texts
            ∙ override_interval-interval host v source_config_file texts
            ∙ ap (timed host v source_config_file) (raw_texts-interval raw st);
        label = λ k.
            merge_labels-label k raw.labels source_config_file timed_texts nodup
            ∙ ap (labelled (lookup k raw.labels) source_config_file) (
                override_interval-label k host v source_config_file texts
                ∙ raw_texts-label raw st k);
      }

  apply_raw-IsApplied :
      (raw : RawConfig) (st st' : State Duration)
      → NodupKeys raw.labels
      → apply_raw host raw st ≡ ok st'
      → IsApplied raw st st'
  apply_raw-IsApplied raw st st' nodup h =
      subst (IsApplied raw st) (apply_raw-merged raw st st' h) (merged-IsApplied raw st nodup)

  unread-IsApplied : (st : State Duration) → IsApplied empty_raw st st
  unfolding lookup
  unread-IsApplied st = record { field = same; interval = refl; label = λ k. refl }
    where
      same :
          (f : Field)
          → field_of f st ≡ given (raw_field f empty_raw) source_config_file (field_of f st)
      same othela_url = refl
      same node_id = refl
      same workspace_dir = refl

  -- What a file's content says.
  abbrev Says : String → RawConfig → Type 0
  Says content raw =
      (host.decode_yaml content ≡ value raw)
      ⊎ ((host.decode_yaml content ≡ eof) × (raw ≡ empty_raw))

  apply_content :
      (content : String) (st st' : State Duration)
      → DecodesMaps host
      → apply_decoded host (host.decode_yaml content) st ≡ ok st'
      → (raw : RawConfig) × Says content raw × IsApplied raw st st'
  unfolding apply_decoded
  apply_content content st st' maps h = elim (Decoded-cases (host.decode_yaml content)) [
    | inl (raw, decoded) ↦
        (raw, inl decoded, apply_raw-IsApplied raw st st' (maps content raw decoded) (ground arith))
    | inr (inl empty) ↦
        (empty_raw, inr (empty, refl), apply_raw-IsApplied empty_raw st st' tt (ground arith))
    | inr (inr (e, bad)) ↦ absurd (ground arith)
  ]

  pub apply_file-IsApplied :
      (path : String) (st st' : State Duration)
      → DecodesMaps host
      → apply_file host path st ≡ ok st'
      → (raw : RawConfig) × IsRead host path raw × IsApplied raw st st'
  unfolding apply_file
  apply_file-IsApplied path st st' maps h = elim (text-cases path "") [
    | inl blank ↦
        let same : st ≡ st' = ground (arith, eq_iff path "") in
        (empty_raw, inl (blank, refl), subst (IsApplied empty_raw st) same (unread-IsApplied st))
    | inr (given_path, differ) ↦ elim (Result-cases (host.read_file path)) [
      | inl (e, unreadable) ↦ absurd (ground arith)
      | inr (content, read) ↦
          let (raw, said, applied) = apply_content content st st' maps (ground arith) in
          (raw, inr (given_path, (content, read, said)), applied)
    ]
  ]
