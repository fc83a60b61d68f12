-- ===== src/Log.antt =====
-- pkg/log/log.go: how messages are written, which the environment says. The loggers of zerolog are a
-- parameter.
mod Tests
use helvilette.Prelude.{String, ◌==◌, if◌then◌else◌}

pub data Level : Type 0 where
  debug_level info_level warn_level error_level fatal_level : Level

-- `zerolog.New` on the standard output with timestamps, as it is or through a `ConsoleWriter`;
-- `With().Str(key, value)`; and the start of an event.
pub record Zerolog : Type 1 where
  pub Logger : Type 0
  pub json_logger : Logger
  pub console_logger : Logger
  pub with_str : Logger → String → String → Logger
  pub Event : Type 0
  pub event : Logger → Level → Event

-- `init`: the logger, and the least level that is written.
unfoldable pub init_logger : (Z : Zerolog) → (String → String) → Z.Logger
init_logger Z getenv = if getenv "HELVILETTE_DEV" == "1" then Z.console_logger else Z.json_logger

unfoldable pub global_level : (String → String) → Level
global_level getenv =
    let level = getenv "HELVILETTE_LOG_LEVEL" in
    if level == "debug"
    then debug_level
    else if level == "warn"
    then warn_level
    else if level == "error"
    then error_level
    else info_level

module _ (Z : Zerolog) (getenv : String → String) where
  -- `Logger`
  abbrev logger : Z.Logger
  logger = init_logger Z getenv

  unfoldable pub with_component : String → Z.Logger
  with_component component = Z.with_str logger "component" component

  unfoldable pub with_node_id : String → Z.Logger
  with_node_id node_id = Z.with_str logger "node_id" node_id

  unfoldable pub debug : Z.Event
  debug = Z.event logger debug_level

  unfoldable pub info : Z.Event
  info = Z.event logger info_level

  unfoldable pub warn : Z.Event
  warn = Z.event logger warn_level

  unfoldable pub error : Z.Event
  error = Z.event logger error_level

  unfoldable pub fatal : Z.Event
  fatal = Z.event logger fatal_level
