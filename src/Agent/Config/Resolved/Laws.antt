-- ===== src/Agent/Config/Resolved/Laws.antt =====
-- The values that `LoadConfig` of cmd/agent/main.go resolves.
use mathlib.Core.Path.{subst}
use helvilette.Prelude.{String, ◌≡◌, ap, ◌∙◌, inl, inr, Option, ok, arith, Result-cases}
use helvilette.Prelude.Dict.{Dict, lookup}
use helvilette.Agent.{AgentConfiguration}
use helvilette.Agent.Config.{
  State, Host, Flags, Field, RawConfig, othela_url, node_id, workspace_dir, flag_name, flag_field,
  source_cli, source_config_file, raw_field, parse_labels, apply_flags, apply_file, load_config,
  format_url,
}
use helvilette.Agent.Config.Stages.{field_of, interval_of, label_of, given, labelled, timed}
use helvilette.Agent.Config.Precedence.{overridden-field, overridden-interval, overridden-label}
use helvilette.Agent.Config.Resolved.{
  resolved_field, resolved_label, resolved_interval, IsResolved, IsRead, DecodesMaps,
}
use helvilette.Agent.Config.Resolved.Sources.{
  env, env-field, env-interval, env-label, IsApplied, apply_file-IsApplied,
}

module _ {Duration : Type 0} (host : Host Duration) (flags : Flags) where
  -- Before the URL gets its normal form.
  record IsOverridden (raw : RawConfig) (st : State Duration) : Type 0 where
    field : (f : Field) → field_of f st ≡ resolved_field host flags raw f
    interval : interval_of st ≡ resolved_interval host flags raw
    label : (k : String) → label_of k st ≡ resolved_label host flags raw k

  flags-IsOverridden :
      (raw : RawConfig) (st : State Duration)
      → IsApplied host raw (env host) st
      → IsOverridden raw (apply_flags host flags st)
  unfolding apply_flags
  flags-IsOverridden raw st applied =
      let v = λ (f : Field). flag_field f flags in
      let source = λ (f : Field). source_cli (flag_name f) in
      let i = flags.poll_interval in
      let l = flags.labels in
      record {
        field = λ f.
            overridden-field host v source i (source_cli "poll-interval") l (source_cli "labels") st
              f
            ∙ ap (given (v f) (source f)) (
                applied.field f
                ∙ ap (given (raw_field f raw) source_config_file) (env-field host f));
        interval =
            overridden-interval host v source i (source_cli "poll-interval") l (source_cli "labels")
              st
            ∙ ap (timed host i (source_cli "poll-interval")) (
                applied.interval
                ∙ ap (timed host raw.poll_interval source_config_file) (env-interval host));
        label = λ k.
            overridden-label host v source i (source_cli "poll-interval") l (source_cli "labels") st
              k
            ∙ ap (labelled (lookup k (parse_labels l)) (source_cli "labels")) (
                applied.label k
                ∙ ap (labelled (lookup k raw.labels) source_config_file) (env-label host k));
      }

  IsOverridden-IsResolved :
      (raw : RawConfig) (c : AgentConfiguration Duration) (p : Dict String)
      → IsOverridden raw (c, p)
      → IsResolved host flags raw (record c { othela_url = format_url c.othela_url }, p)
  IsOverridden-IsResolved raw c p over = record {
    url =
        ap {B = String × Option String} (λ (r : String × Option String). (format_url r.0, r.1))
          (over.field othela_url);
    id = over.field node_id;
    workspace = over.field workspace_dir;
    interval = over.interval;
    labels = over.label;
  }

  -- A configuration that loads has, for what the file says, every value from the first of the flags,
  -- the file, the environment and the default that gives one, with that source on record; an interval
  -- of the flags or of the environment that does not parse is passed over, labels are merged key by
  -- key, and the URL is in its normal form. The decoder gives no key of the labels twice.
  pub load_config-IsResolved :
      (st : State Duration)
      → DecodesMaps host
      → load_config host flags ≡ ok st
      → (raw : RawConfig) × IsRead host flags.config raw × IsResolved host flags raw st
  unfolding load_config env
  load_config-IsResolved st maps h = elim (Result-cases (apply_file host flags.config (env host))) [
    | inl (e, bad) ↦ absurd (ground arith)
    | inr (mid, fine) ↦
        let (raw, read, applied) =
          apply_file-IsApplied host flags.config (env host) mid maps fine in
        let (c, p) = apply_flags host flags mid in
        let last : (record c { othela_url = format_url c.othela_url }, p) ≡ st = ground arith in
        (
          raw,
          read,
          subst (IsResolved host flags raw) last
              (IsOverridden-IsResolved raw c p (flags-IsOverridden raw mid applied)),
        )
  ]
