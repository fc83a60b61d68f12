-- ===== src/Agent/Config/Tests.antt =====
-- Runs of the URL's normal form, and its theorems at a sample address.
use helvilette.Prelude.{◌≡◌, refl}
use helvilette.Prelude.Text.{has_prefix, has_suffix, trim_slash}
use helvilette.Agent.Config.{add_scheme, add_api_path, format_url}
use helvilette.Agent.Config.Url.{IsEndpoint, format_url-IsEndpoint}

format_url_tests :
    (format_url "othela:8080/" ≡ "http://othela:8080/api/v1")
    × (format_url "https://othela/api/v1/" ≡ "https://othela/api/v1")
unfolding format_url add_scheme add_api_path trim_slash has_prefix has_suffix
format_url_tests = (refl, refl)

format_url-IsEndpoint_example : IsEndpoint (format_url "othela:8080/")
format_url-IsEndpoint_example = format_url-IsEndpoint "othela:8080/"
