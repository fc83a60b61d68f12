-- ===== src/Log/Tests.antt =====
-- Loggers that are the list of their fields.
use helvilette.Prelude.{String, ◌≡◌, ◌==◌, if◌then◌else◌, refl, List, [], ◌∷◌}
use helvilette.Log.{
  Level, debug_level, info_level, warn_level, error_level, fatal_level, Zerolog, init_logger,
  global_level, with_component, with_node_id, debug, info, warn, error, fatal,
}

abbrev fields : Zerolog
fields = record {
  Logger = List (String × String);
  json_logger = [];
  console_logger = ("console", "") ∷ [];
  with_str = λ logger key value. (key, value) ∷ logger;
  Event = List (String × String) × Level;
  event = λ logger level. (logger, level);
}

-- An environment that sets one variable.
abbrev only : String → String → String → String
only name value key = if key == name then value else ""

level_tests :
    (global_level (only "HELVILETTE_LOG_LEVEL" "debug") ≡ debug_level)
    × (global_level (only "HELVILETTE_LOG_LEVEL" "error") ≡ error_level)
    × (global_level (only "HELVILETTE_LOG_LEVEL" "DEBUG") ≡ info_level)
    × (global_level (only "" "") ≡ info_level)
unfolding global_level
level_tests = (refl, refl, refl, refl)

logger_tests :
    (with_component fields (only "HELVILETTE_DEV" "1") "agent"
      ≡ ("component", "agent") ∷ ("console", "") ∷ [])
    × (with_node_id fields (only "HELVILETTE_DEV" "0") "web-1" ≡ ("node_id", "web-1") ∷ [])
    × (info fields (only "" "") ≡ ([], info_level))
    × (fatal fields (only "HELVILETTE_LOG_LEVEL" "error") ≡ ([], fatal_level))
unfolding with_component with_node_id init_logger info fatal
logger_tests = (refl, refl, refl, refl)

event_tests :
    (debug fields (only "" "") ≡ ([], debug_level))
    × (warn fields (only "" "") ≡ ([], warn_level))
    × (error fields (only "" "") ≡ ([], error_level))
unfolding init_logger debug warn error
event_tests = (refl, refl, refl)
