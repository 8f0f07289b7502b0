-- ===== src/Log/Manager/Tests.antt =====
-- Runs of the manager, and the theorems at concrete configurations.
use libcold.Base.{ℕ, ◌≡◌, refl, List, [], ◌∷◌, Bool, true, Option, none, some, bytes_of}
use libcold.Log.{warn, off}
use libcold.Log.LocalTime.{TimeExploded}
use libcold.Log.Sinks.{int_arg, make_sink, default_pattern}
use libcold.Log.Formatter.{new_formatter}
use libcold.Log.Logger.{Logger}
use libcold.Log.Manager.{LogsConfig, main_logger}

abbrev all_open : List ℕ → Bool → Bool
all_open name append = true

abbrev zero_time : TimeExploded
zero_time = record {
  year = 0;
  month = 0;
  day = 0;
  day_of_week = 0;
  day_in_year = 0;
  hour = 0;
  minute = 0;
  second = 0;
  millisecond = 0;
}

abbrev no_sinks : Option (List ℕ) → LogsConfig
no_sinks level = record { name = none; level = level; pattern = none; sinks = some [] }

abbrev warn_logger : Logger
warn_logger = record {
  name = bytes_of "main-logger";
  logger_level = warn;
  flush_level = off;
  logger_sinks = [];
}

warn_configured :
    main_logger all_open zero_time (no_sinks (some (bytes_of "WARN"))) ≡ some warn_logger
unfolding main_logger
warn_configured = refl

-- A file needs its name.
file_without_name :
    make_sink all_open zero_time (bytes_of "BasicFileSink") [] (int_arg 1 ∷ []) ≡ none
unfolding make_sink new_formatter default_pattern
file_without_name = refl
