-- ===== src/Agent/Config/Stages.antt =====
-- What each source of a configuration does to one field, to the interval and to one label: the value
-- and the source that is on record for it.
use helvilette.Prelude.{
  String, ◌≡◌, ◌≢◌, refl, ◌∙◌, Option, none, some, inl, inr, [], ◌∷◌, ◌==◌, if◌then◌else◌, arith,
  eq_iff, eq_refl, text-cases,
}
use helvilette.Prelude.Dict.{Dict, lookup, insert, NodupKeys, lookup-insert}
use helvilette.Agent.Config.Keys.{
  label_key, label_key_same, label_key_other, field_name-plain, interval_label-other,
}
use helvilette.Agent.Config.Parse.{parse_labels-nil, parse_labels-NodupKeys}
use helvilette.Agent.{AgentConfiguration}
use helvilette.Agent.Config.{
  State, Host, Field, othela_url, node_id, workspace_dir, field_name, override, override_interval,
  merge_labels, override_labels, parse_labels,
}

-- A text of a source, if it is not empty, in place of what was there.
abbrev pub given : String → String → String × Option String → String × Option String
given v source old = if v == "" then old else (v, some source)

-- The label of a source, if it has one.
abbrev pub labelled :
    Option String → String → Option String × Option String → Option String × Option String
labelled none source old = old
labelled (some v) source old = (some v, some source)

module _ {Duration : Type 0} where
  abbrev pub value : Field → AgentConfiguration Duration → String
  value othela_url c = c.othela_url
  value node_id c = c.node_id
  value workspace_dir c = c.workspace_dir

  -- A value with the source on record.
  abbrev pub field_of : Field → State Duration → String × Option String
  field_of f (c, p) = (value f c, lookup (field_name f) p)

  abbrev pub interval_of : State Duration → Duration × Option String
  interval_of (c, p) = (c.poll_interval, lookup "pollInterval" p)

  abbrev pub label_of : String → State Duration → Option String × Option String
  label_of k (c, p) = (lookup k c.labels, lookup (label_key k) p)

  -- The interval of a source, if there is one and it parses.
  abbrev pub timed :
      Host Duration → String → String → Duration × Option String → Duration × Option String
  timed host v source old =
      if v == ""
      then old
      else elim (host.parse_duration v) [ none ↦ old | some d ↦ (d, some source) ]

  pub override-field :
      (f : Field) (v source : String) (st : State Duration)
      → field_of f (override f v source st) ≡ given v source (field_of f st)
  unfolding override
  override-field othela_url v source (c, p) =
      ground (arith, lookup-insert "othelaURL" "othelaURL" source p, eq_refl "othelaURL")
  override-field f v source (c, p) =
      ground (arith, lookup-insert (field_name f) (field_name f) source p, eq_refl (field_name f))

  -- Another field keeps its value and source.
  pub override-other :
      (f g : Field) (v source : String) (st : State Duration)
      → f ≢ g
      → field_of f (override g v source st) ≡ field_of f st
  unfolding override
  override-other othela_url othela_url v source (c, p) ne = absurd (ne refl)
  override-other node_id node_id v source (c, p) ne = absurd (ne refl)
  override-other workspace_dir workspace_dir v source (c, p) ne = absurd (ne refl)
  override-other f g v source (c, p) ne = ground (
    arith,
    lookup-insert (field_name g) (field_name f) source p,
    eq_iff (field_name g) (field_name f),
  )

  pub override-label :
      (k : String) (f : Field) (v source : String) (st : State Duration)
      → label_of k (override f v source st) ≡ label_of k st
  unfolding override
  override-label k othela_url v source (c, p) = ground (
    arith,
    lookup-insert "othelaURL" (label_key k) source p,
    label_key_other k "othelaURL" (field_name-plain othela_url),
  )
  override-label k f v source (c, p) = ground (
    arith,
    lookup-insert (field_name f) (label_key k) source p,
    label_key_other k (field_name f) (field_name-plain f),
  )

  pub override-interval :
      (f : Field) (v source : String) (st : State Duration)
      → interval_of (override f v source st) ≡ interval_of st
  unfolding override
  override-interval othela_url v source (c, p) =
      ground (arith, lookup-insert "othelaURL" "pollInterval" source p)
  override-interval f v source (c, p) =
      ground (arith, lookup-insert (field_name f) "pollInterval" source p)

  insert_label-field :
      (f : Field) (k v source : String) (c : AgentConfiguration Duration) (p : Dict String)
      → field_of f (record c { labels = insert k v c.labels }, insert (label_key k) source p)
        ≡ field_of f (c, p)
  insert_label-field othela_url k v source c p = ground (
    arith,
    lookup-insert (label_key k) "othelaURL" source p,
    label_key_other k "othelaURL" (field_name-plain othela_url),
  )
  insert_label-field f k v source c p = ground (
    arith,
    lookup-insert (label_key k) (field_name f) source p,
    label_key_other k (field_name f) (field_name-plain f),
  )

  pub merge_labels-field :
      (f : Field) (labels : Dict String) (source : String) (st : State Duration)
      → field_of f (merge_labels labels source st) ≡ field_of f st
  unfolding merge_labels
  merge_labels-field f [] source st = refl
  merge_labels-field f ((k, v) ∷ labels) source (c, p) =
      merge_labels-field f labels source
        (record c { labels = insert k v c.labels }, insert (label_key k) source p)
      ∙ insert_label-field f k v source c p

  pub merge_labels-interval :
      (labels : Dict String) (source : String) (st : State Duration)
      → interval_of (merge_labels labels source st) ≡ interval_of st
  unfolding merge_labels
  merge_labels-interval [] source st = refl
  merge_labels-interval ((k, v) ∷ labels) source (c, p) =
      merge_labels-interval labels source
        (record c { labels = insert k v c.labels }, insert (label_key k) source p)
      ∙ ground (arith, lookup-insert (label_key k) "pollInterval" source p, interval_label-other k)

  pub merge_labels-label :
      (j : String) (labels : Dict String) (source : String) (st : State Duration)
      → NodupKeys labels
      → label_of j (merge_labels labels source st)
        ≡ labelled (lookup j labels) source (label_of j st)
  unfolding merge_labels lookup
  merge_labels-label j [] source st _ = refl
  merge_labels-label j ((k, v) ∷ labels) source (c, p) (new, nodup) =
      merge_labels-label j labels source
        (record c { labels = insert k v c.labels }, insert (label_key k) source p) nodup
      ∙ ground (
        arith,
        lookup-insert k j v c.labels,
        lookup-insert (label_key k) (label_key j) source p,
        label_key_same k j,
        eq_iff k j,
        new,
      )

  pub override_interval-field :
      (f : Field) (host : Host Duration) (v source : String) (st : State Duration)
      → field_of f (override_interval host v source st) ≡ field_of f st
  unfolding override_interval
  override_interval-field othela_url host v source (c, p) =
      ground (arith, lookup-insert "pollInterval" "othelaURL" source p)
  override_interval-field f host v source (c, p) =
      ground (arith, lookup-insert "pollInterval" (field_name f) source p)

  pub override_interval-label :
      (k : String) (host : Host Duration) (v source : String) (st : State Duration)
      → label_of k (override_interval host v source st) ≡ label_of k st
  unfolding override_interval
  override_interval-label k host v source (c, p) =
      ground (arith, lookup-insert "pollInterval" (label_key k) source p, interval_label-other k)

  pub override_interval-interval :
      (host : Host Duration) (v source : String) (st : State Duration)
      → interval_of (override_interval host v source st) ≡ timed host v source (interval_of st)
  unfolding override_interval
  override_interval-interval host v source (c, p) =
      ground (arith, lookup-insert "pollInterval" "pollInterval" source p)

  pub override_labels-field :
      (f : Field) (s source : String) (st : State Duration)
      → field_of f (override_labels s source st) ≡ field_of f st
  unfolding override_labels
  override_labels-field f s source st =
      ground (arith, merge_labels-field f (parse_labels s) source st)

  pub override_labels-interval :
      (s source : String) (st : State Duration)
      → interval_of (override_labels s source st) ≡ interval_of st
  unfolding override_labels
  override_labels-interval s source st =
      ground (arith, merge_labels-interval (parse_labels s) source st)

  pub override_labels-label :
      (k s source : String) (st : State Duration)
      → label_of k (override_labels s source st)
        ≡ labelled (lookup k (parse_labels s)) source (label_of k st)
  unfolding override_labels lookup
  override_labels-label k s source st = elim (text-cases s "") [
    | inl blank ↦ rw blank (rw parse_labels-nil refl)
    | inr (_, some_text) ↦
        ground (arith, merge_labels-label k (parse_labels s) source st (parse_labels-NodupKeys s))
  ]
