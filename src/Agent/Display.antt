-- ===== src/Agent/Display.antt =====
-- `configFields` and `FormatConfig` of cmd/agent/main.go: the resolved configuration as a text. The
-- text of a duration is a parameter.
mod Laws
pub mod Effective
mod Tests
use Prim.Native.String.{len, count}
use helvilette.Prelude.{ℕ, zero, suc, ◌-◌, String, List, [], ◌∷◌, ◌++◌, ltb, ◌==◌, if◌then◌else◌}
use helvilette.Prelude.Dict.{Dict, get}
use helvilette.Prelude.Sort.{sort_strings}
use helvilette.FilePath.{◌<>◌}
use helvilette.Agent.{AgentConfiguration, ConfigProvenance}

-- The keys of a map, in the order of one iteration.
unfoldable pub keys : Dict String → List String
keys [] = []
keys ((k, _) ∷ m) = k ∷ keys m

unfoldable pub label_fields : Dict String → List String → List (String × String)
label_fields labels [] = []
label_fields labels (k ∷ ks) = ("labels." <> k, get labels k) ∷ label_fields labels ks

unfoldable pub config_fields :
    {Duration : Type 0} → (Duration → String) → AgentConfiguration Duration → List (String × String)
config_fields show config =
    (("othelaURL", config.othela_url)
      ∷ ("nodeID", config.node_id)
      ∷ ("pollInterval", show config.poll_interval)
      ∷ ("workspaceDir", config.workspace_dir)
      ∷ [])
    ++ label_fields config.labels (sort_strings (keys config.labels))

-- `if len(s) > width { width = len(s) }`, where `len` counts bytes.
widen : ℕ → String → ℕ
widen width s = if ltb width (len s) then len s else width

unfoldable pub widths : List (String × String) → ℕ × ℕ → ℕ × ℕ
unfolding widen
widths [] w = w
widths ((name, value) ∷ fields) (name_width, value_width) =
    widths fields (widen name_width name, widen value_width value)

spaces : ℕ → String
spaces zero = ""
spaces (suc n) = " " <> spaces n

-- `%-*s`, which counts characters.
pad : ℕ → String → String
unfolding spaces
pad width s = s <> spaces (width - count s)

unfoldable pub source_of : ConfigProvenance → String → String
source_of provenance name =
    let source = get provenance name in if source == "" then "default" else source

unfoldable pub format_fields : ConfigProvenance → ℕ × ℕ → List (String × String) → String
unfolding pad
format_fields provenance w [] = ""
format_fields provenance w ((name, value) ∷ fields) =
    pad w.0 name
    <> " = "
    <> pad w.1 value
    <> "  source="
    <> source_of provenance name
    <> "\n"
    <> format_fields provenance w fields

unfoldable pub format_config :
    {Duration : Type 0}
    → (Duration → String)
    → AgentConfiguration Duration
    → ConfigProvenance
    → String
format_config show config provenance =
    let fields = config_fields show config in format_fields provenance (widths fields (0, 0)) fields
