-- ===== src/Log.antt =====
-- cold/log/LogCommon.h: what a log record holds. A time is in milliseconds since the epoch, and the
-- views of the record are the bytes that they show.
pub mod LocalTime
pub mod Formatter
pub mod Sinks
pub mod Logger
pub mod Manager
use libcold.Base.{ℕ, List}

pub data LogLevel : Type 0 where
  trace debug info warn error fatal off : LogLevel

-- The value of the enumeration.
abbrev pub level_value : LogLevel → ℕ
level_value trace = 0
level_value debug = 1
level_value info = 2
level_value warn = 3
level_value error = 4
level_value fatal = 5
level_value off = 6

pub record SourceLocation : Type 0 where
  pub function_name : List ℕ
  pub file_name : List ℕ
  pub line : ℕ

pub record LogMessage : Type 0 where
  pub level : LogLevel
  pub thread_id : List ℕ
  pub thread_name : List ℕ
  pub logger_name : List ℕ
  pub location : SourceLocation
  pub base_name : List ℕ
  pub log_time : ℕ
  pub log_line : List ℕ
