-- ===== src/Othela/RemovedFlag.antt =====
-- Which arguments `removedFlagError` of cmd/othela/main.go refuses.
use helvilette.Prelude.{
  String, true, Bool-cases, ◌≡◌, ◌≢◌, ◌↔◌, ◌⊎◌, inl, inr, refl, ap, ◌∙◌, none, List, [], ◌∷◌, Any,
  arith, eq_iff,
}
use helvilette.Prelude.Text.{has_prefix, has_prefix-split, has_prefix-append_self}
use helvilette.FilePath.{◌<>◌}
use helvilette.Othela.{is_removed_data_dir_arg, removed_flag_error}

-- The old flag or its shorthand, alone or with a value behind "=".
abbrev pub IsRemoved : String → Type 0
IsRemoved arg =
    (arg ≡ "--data-dir")
    ⊎ ((v : String) × (arg ≡ "--data-dir=" <> v))
    ⊎ (arg ≡ "-d")
    ⊎ ((v : String) × (arg ≡ "-d=" <> v))

prefix_iff : (s p : String) → (has_prefix s p ≡ true) ↔ ((v : String) × (s ≡ p <> v))
prefix_iff s p = (
  λ h. has_prefix-split s p h,
  λ (v, same). ap (λ t. has_prefix t p) same ∙ has_prefix-append_self p v,
)

IsRemoved-iff : (arg : String) → (is_removed_data_dir_arg arg ≡ true) ↔ IsRemoved arg
unfolding is_removed_data_dir_arg
IsRemoved-iff arg = ground (
  arith,
  eq_iff arg "--data-dir",
  eq_iff arg "-d",
  prefix_iff arg "--data-dir=",
  prefix_iff arg "-d=",
)

-- The control plane refuses its arguments exactly when one of them is the removed flag "--data-dir" or
-- its shorthand "-d", alone or with a value behind "=".
pub removed_flag_error_iff :
    (args : List String) → (removed_flag_error args ≢ none) ↔ Any IsRemoved args
unfolding removed_flag_error
removed_flag_error_iff [] = (λ h. h refl, λ h. absurd h)
removed_flag_error_iff (arg ∷ args) = elim (Bool-cases (is_removed_data_dir_arg arg)) [
  | inl removed ↦ ground (arith, IsRemoved-iff arg)
  | inr kept ↦ ground (arith, IsRemoved-iff arg, removed_flag_error_iff args)
]
