-- ===== src/Logging.antt =====
-- headers/logging/Logger.hpp and sources/logging/Logger.cpp: the logger over syslog. The priorities
-- and the masks are the values of syslog.h.
pub mod Filter
use fion.Prelude.{
  ℕ, zero, suc, ◌+◌, ◌-◌, ◌/◌, ◌%◌, ◌^◌, Bool, true, false, List, [], ◌∷◌, ltb, ◌==◌, if◌then◌else◌,
}
use fion.Text.{Bytes}

pub data LogLevel : Type 0 where
  emergency alert critical error warning notice info debug : LogLevel

-- `static_cast<int>(level)`
unfoldable pub rank : LogLevel → ℕ
rank LogLevel.emergency = 0
rank LogLevel.alert = 1
rank LogLevel.critical = 2
rank LogLevel.error = 3
rank LogLevel.warning = 4
rank LogLevel.notice = 5
rank LogLevel.info = 6
rank LogLevel.debug = 7

-- `LOG_EMERG` is 0, and `LOG_DEBUG` is 7.
unfoldable pub to_priority : LogLevel → ℕ
to_priority LogLevel.emergency = 0
to_priority LogLevel.alert = 1
to_priority LogLevel.critical = 2
to_priority LogLevel.error = 3
to_priority LogLevel.warning = 4
to_priority LogLevel.notice = 5
to_priority LogLevel.info = 6
to_priority LogLevel.debug = 7

-- `LOG_MASK(p)` is 2 ^ p, and `LOG_UPTO(p)` is 2 ^ (p + 1) - 1.
unfoldable pub to_mask : LogLevel → ℕ
to_mask LogLevel.emergency = 2 ^ 0
to_mask LogLevel.alert = 2 ^ 0 + 2 ^ 1
to_mask LogLevel.critical = 2 ^ 3 - 1
to_mask LogLevel.error = 2 ^ 4 - 1
to_mask LogLevel.warning = 2 ^ 5 - 1
to_mask LogLevel.notice = 2 ^ 6 - 1
to_mask LogLevel.info = 2 ^ 7 - 1
to_mask LogLevel.debug = 2 ^ 8 - 1

-- The statics of the file, and the mask that syslog holds: all priorities before a call sets it.
pub record Logger : Type 0 where
  pub current_level : LogLevel
  pub initialized : Bool
  pub syslog_mask : ℕ

abbrev pub first_logger : Logger
first_logger = record { current_level = LogLevel.debug; initialized = false; syslog_mask = 255 }

unfoldable pub init : Logger → Logger
init s =
    if s.initialized
    then s
    else record s { syslog_mask = to_mask s.current_level; initialized = true }

unfoldable pub shutdown : Logger → Logger
shutdown s = if s.initialized then record s { initialized = false } else s

unfoldable pub set_level : Logger → LogLevel → Logger
set_level s level = record s { current_level = level; syslog_mask = to_mask level }

-- `log`: what it passes to syslog, a priority and a text.
unfoldable pub log : Logger → LogLevel → Bytes → List (ℕ × Bytes)
log s level message =
    if ltb (rank s.current_level) (rank level) then [] else (to_priority level, message) ∷ []

-- Syslog drops what its mask does not hold.
unfoldable pub passes : ℕ → ℕ → Bool
passes mask priority = mask / 2 ^ priority % 2 == 1
