-- ===== src/Agent/Config/Keys.antt =====
-- The names of configuration values in a `ConfigProvenance`.
use text.Mathlib.TextLemmas.{append_cancel_left}
use helvilette.Prelude.{
  String, false, ◌≡◌, ◌≢◌, refl, sym, ap, ◌∙◌, inl, inr, ◌==◌, arith, eq_iff, eq_refl, text-cases,
}
use helvilette.Prelude.Text.{has_prefix, has_prefix-append_self}
use helvilette.FilePath.{◌<>◌}
use helvilette.Agent.Config.{Field, othela_url, field_name}

-- The name under which the source of a label is on record.
abbrev pub label_key : String → String
label_key k = "labels." <> k

pub label_key_same : (k j : String) → (label_key k == label_key j) ≡ (k == j)
label_key_same k j = elim (text-cases k j) [
  | inl same ↦ rw same (eq_refl (label_key j) ∙ sym (eq_refl j))
  | inr (other, differ) ↦ ground (
    arith,
    eq_iff (label_key k) (label_key j),
    λ (e : label_key k ≡ label_key j). append_cancel_left "labels." k j e,
  )
]

-- The names of the other fields are not names of labels.
label_key-ne : (k name : String) → has_prefix name "labels." ≡ false → label_key k ≢ name
label_key-ne k name not_label same =
    cc (sym (ap (λ s. has_prefix s "labels.") same) ∙ has_prefix-append_self "labels." k)

pub label_key_other :
    (k name : String)
    → has_prefix name "labels." ≡ false
    → ((label_key k == name) ≡ false) × ((name == label_key k) ≡ false)
label_key_other k name not_label =
    let ne = label_key-ne k name not_label in
    (ground (arith, ne, eq_iff (label_key k) name), ground (arith, ne, eq_iff name (label_key k)))

pub field_name-plain : (f : Field) → has_prefix (field_name f) "labels." ≡ false
unfolding has_prefix
field_name-plain othela_url = refl
field_name-plain _ = refl

pub interval_label-other :
    (k : String)
    → ((label_key k == "pollInterval") ≡ false) × (("pollInterval" == label_key k) ≡ false)
interval_label-other k = label_key_other k "pollInterval" (unfold has_prefix in refl)
