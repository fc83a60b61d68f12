-- ===== src/Agent/Config/Url.antt =====
-- The normal form of the control plane's URL.
use Prim.Native.String.{[], ◌∷◌}
use helvilette.Prelude.{String, Bool-cases, inl, inr, Bool, true, false, ◌≡◌, refl, arith}
use helvilette.Prelude.Text.{
  has_prefix, has_suffix, trim_slash, has_suffix-append, has_prefix-append,
}
use helvilette.Agent.Config.{add_scheme, add_api_path, format_url}

-- A URL that the agent can append "/nodes/register" and the like to.
abbrev pub IsEndpoint : String → Type 0
IsEndpoint url = (has_prefix url "http" ≡ true) × (has_suffix url "/api/v1" ≡ true)

add_scheme-prefix : (url : String) → has_prefix (add_scheme url) "http" ≡ true
unfolding add_scheme
add_scheme-prefix url = elim (Bool-cases (has_prefix url "http")) [
  | inl has ↦ ground arith
  | inr lacks ↦ ground (arith, has_prefix-append "http://" url "http" scheme)
]
  where
    scheme : has_prefix "http://" "http" ≡ true
    scheme = unfold has_prefix in refl

-- Cutting a "/" off the end keeps "http" in front: the "p" is no "/".
trim_slash-prefix :
    (url : String) → has_prefix url "http" ≡ true → has_prefix (trim_slash url) "http" ≡ true
unfolding has_prefix trim_slash
trim_slash-prefix [] h = cc
trim_slash-prefix (a ∷ []) h = ground arith
trim_slash-prefix (a ∷ b ∷ []) h = ground arith
trim_slash-prefix (a ∷ b ∷ c ∷ []) h = ground arith
trim_slash-prefix (a ∷ b ∷ c ∷ d ∷ []) h = ground arith
trim_slash-prefix (a ∷ b ∷ c ∷ d ∷ e ∷ s) h = ground arith

is_single : String → Bool
is_single [] = false
is_single (c ∷ []) = true
is_single (c ∷ d ∷ s) = false

-- Whatever the source says, the resolved URL begins with "http" and ends with "/api/v1".
pub format_url-IsEndpoint : (url : String) → IsEndpoint (format_url url)
unfolding format_url add_api_path
format_url-IsEndpoint url =
    let trimmed = trim_slash (add_scheme url) in
    let scheme = trim_slash-prefix (add_scheme url) (add_scheme-prefix url) in
    elim (Bool-cases (has_suffix trimmed "/api/v1")) [
      | inl has ↦ ground arith
      | inr lacks ↦ ground (
        arith,
        has_suffix-append trimmed "/api/v1",
        has_prefix-append trimmed "/api/v1" "http" scheme,
      )
    ]
