-- ===== src/Agent/Display/Laws.antt =====
-- `FormatConfig` of cmd/agent/main.go and the order in which a map is iterated.
use helvilette.Prelude.{ℕ, String, ◌≡◌, ◌≢◌, refl, ◌↔◌, none, List, [], ◌∷◌, In, arith, eq_iff}
use helvilette.Prelude.Dict.{Dict, get, lookup, NodupKeys}
use helvilette.Prelude.Sort.{
  sort_strings, IsDistinct, In-sort_strings, sort_strings-IsSorted, IsSorted-unique,
}
use helvilette.Agent.{AgentConfiguration, ConfigProvenance}
use helvilette.Agent.Display.{
  keys, label_fields, config_fields, source_of, format_fields, widths, format_config,
}

-- Two maps that read alike at every key.
abbrev pub ReadsAlike : Dict String → Dict String → Type 0
ReadsAlike m n = (k : String) → lookup k m ≡ lookup k n

In-keys : (k : String) (m : Dict String) → In k (keys m) ↔ (lookup k m ≢ none)
unfolding keys lookup
In-keys k [] = (λ h. absurd h, λ h. absurd (h refl))
In-keys k ((j, v) ∷ m) = ground (arith, In-keys k m, eq_iff j k)

keys-IsDistinct : (m : Dict String) → NodupKeys m → IsDistinct (keys m)
unfolding keys
keys-IsDistinct [] _ = tt
keys-IsDistinct ((k, v) ∷ m) (new, nodup) = (λ h. (In-keys k m).0 h new, keys-IsDistinct m nodup)

same_keys :
    (m n : Dict String)
    → NodupKeys m
    → NodupKeys n
    → ReadsAlike m n
    → sort_strings (keys m) ≡ sort_strings (keys n)
same_keys m n um un same =
    IsSorted-unique (sort_strings (keys m)) (sort_strings (keys n))
      (sort_strings-IsSorted (keys m) (keys-IsDistinct m um))
      (sort_strings-IsSorted (keys n) (keys-IsDistinct n un))
      λ k. ground (
        arith,
        In-sort_strings k (keys m),
        In-sort_strings k (keys n),
        In-keys k m,
        In-keys k n,
        same k,
      )

get_same : (m n : Dict String) → ReadsAlike m n → (k : String) → get m k ≡ get n k
unfolding get
get_same m n same k = ground (arith, same k)

label_fields_same :
    (m n : Dict String) (ks : List String) → ReadsAlike m n → label_fields m ks ≡ label_fields n ks
unfolding label_fields
label_fields_same m n [] same = refl
label_fields_same m n (k ∷ ks) same =
    ground (arith, get_same m n same k, label_fields_same m n ks same)

source_of_same :
    (p q : ConfigProvenance)
    → ReadsAlike p q
    → (name : String) → source_of p name ≡ source_of q name
unfolding source_of
source_of_same p q same name = ground (arith, get_same p q same name)

format_fields_same :
    (p q : ConfigProvenance) (w : ℕ × ℕ) (fields : List (String × String))
    → ReadsAlike p q
    → format_fields p w fields ≡ format_fields q w fields
unfolding format_fields
format_fields_same p q w [] same = refl
format_fields_same p q w ((name, v) ∷ fields) same =
    rw (source_of_same p q same name, format_fields_same p q w fields same) refl

-- Two configurations with the same values, whose labels may be iterated in another order.
pub record IsSameConfig {Duration : Type 0} (c d : AgentConfiguration Duration) : Type 0 where
  pub url : c.othela_url ≡ d.othela_url
  pub id : c.node_id ≡ d.node_id
  pub interval : c.poll_interval ≡ d.poll_interval
  pub workspace : c.workspace_dir ≡ d.workspace_dir
  pub labels : ReadsAlike c.labels d.labels
  pub nodup : NodupKeys c.labels
  pub nodup' : NodupKeys d.labels

module _ {Duration : Type 0} (show : Duration → String) (c d : AgentConfiguration Duration) where
  config_fields_same : IsSameConfig c d → config_fields show c ≡ config_fields show d
  unfolding config_fields
  config_fields_same same =
      let ks = same_keys c.labels d.labels same.nodup same.nodup' same.labels in
      let fields = label_fields_same c.labels d.labels (sort_strings (keys d.labels)) same.labels in
      cc (same.url, same.id, same.interval, same.workspace, ks, fields)

  -- Configurations with the same values and the same sources are printed alike, in whatever order
  -- their maps are iterated.
  pub format_config_same :
      (p q : ConfigProvenance)
      → IsSameConfig c d
      → ReadsAlike p q
      → format_config show c p ≡ format_config show d q
  unfolding format_config
  format_config_same p q same sources =
      let fields = config_fields show d in
      rw (config_fields_same same) (format_fields_same p q (widths fields (0, 0)) fields sources)
