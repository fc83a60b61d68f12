-- ===== src/Agent/Config/Resolved/Errors.antt =====
-- When `LoadConfig` of cmd/agent/main.go fails, and with which error.
use helvilette.Prelude.{
  String, ◌≡◌, ◌≢◌, ◌↔◌, ◌⊎◌, inl, inr, none, ok, err, arith, Result-cases, eq_iff,
}
use helvilette.Agent.Config.{
  State, Host, Flags, RawConfig, empty_raw, ConfigError, unreadable, unparsable,
  invalid_poll_interval, value, failed, apply_raw, apply_decoded, file_interval, apply_file,
  load_config,
}
use helvilette.Agent.Config.Resolved.Sources.{Decoded-cases, env}

module _ {Duration : Type 0} (host : Host Duration) where
  -- The content of a file has a fault. An empty file has none.
  abbrev pub IsContentFault : String → ConfigError → Type 0
  IsContentFault content (unreadable e) = ⊥
  IsContentFault content (unparsable e) = host.decode_yaml content ≡ failed e
  IsContentFault content (invalid_poll_interval v) =
      (raw : RawConfig) × (host.decode_yaml content ≡ value raw)
      × (raw.poll_interval ≡ v)
      × (v ≢ "")
      × (host.parse_duration v ≡ none)

  -- The file whose path is given cannot be read, or its content has a fault.
  abbrev pub IsFault : String → ConfigError → Type 0
  IsFault path e =
      (path ≢ "")
      × (((why : String) × (host.read_file path ≡ err why) × (e ≡ unreadable why))
          ⊎ ((content : String) × (host.read_file path ≡ ok content) × IsContentFault content e))

  apply_raw_iff :
      (raw : RawConfig) (st : State Duration) (e : ConfigError)
      → (apply_raw host raw st ≡ err e) ↔ (
          (e ≡ invalid_poll_interval raw.poll_interval)
          × (raw.poll_interval ≢ "")
          × (host.parse_duration raw.poll_interval ≡ none))
  unfolding apply_raw file_interval
  apply_raw_iff raw st e = ground (arith, eq_iff raw.poll_interval "")

  apply_decoded_iff :
      (content : String) (st : State Duration) (e : ConfigError)
      → (apply_decoded host (host.decode_yaml content) st ≡ err e) ↔ IsContentFault content e
  unfolding apply_decoded
  apply_decoded_iff content st (unreadable u) = elim (Decoded-cases (host.decode_yaml content)) [
    | inl (raw, decoded) ↦ ground (arith, apply_raw_iff raw st (unreadable u))
    | inr (inl empty) ↦ ground (arith, apply_raw_iff empty_raw st (unreadable u))
    | inr (inr (why, bad)) ↦ ground arith
  ]
  apply_decoded_iff content st e = elim (Decoded-cases (host.decode_yaml content)) [
    | inl (raw, decoded) ↦ ground (arith, apply_raw_iff raw st e)
    | inr (inl empty) ↦ ground (arith, apply_raw_iff empty_raw st e)
    | inr (inr (why, bad)) ↦ ground arith
  ]

  apply_file_iff :
      (path : String) (st : State Duration) (e : ConfigError)
      → (apply_file host path st ≡ err e) ↔ IsFault path e
  unfolding apply_file
  apply_file_iff path st e = elim (Result-cases (host.read_file path)) [
    | inl (why, bad) ↦ ground (arith, eq_iff path "")
    | inr (content, read) ↦ ground (arith, eq_iff path "", apply_decoded_iff content st e)
  ]

  -- A configuration does not load exactly when a file is given and cannot be read, its content cannot
  -- be decoded, or it has an interval that does not parse; the error says which. The environment and
  -- the flags make no error.
  pub load_config_iff :
      (flags : Flags) (e : ConfigError) → (load_config host flags ≡ err e) ↔ IsFault flags.config e
  unfolding load_config env
  load_config_iff flags e = ground (arith, apply_file_iff flags.config (env host) e)
