-- ===== src/Log/Logger/Tests.antt =====
-- Runs of a logger, and the theorems at concrete records.
use libcold.Base.{ℕ, ◌≡◌, refl, List, [], ◌∷◌, true, false, Option, none, some, arith, bytes_of}
use libcold.Log.{LogLevel, debug, info, error, LogMessage}
use libcold.Log.LocalTime.{Tm, TimeExploded}
use libcold.Log.Formatter.{
  FlagMap, LogFormatter, log_line_formatter, new_line_formatter, compile_loop, handle_flag,
  format_sequence, format_flag,
}
use libcold.Log.Formatter.Runs.{meaning_of_sequence}
use libcold.Log.Sinks.{stdout_sink, basic_file_sink, LogSink, fresh, sink, flush}
use libcold.Log.Logger.{Logger, base_name_of, sink_all, flush_all, should_flush, sink_it}
use libcold.Log.Logger.Took.{IsCompiled, expected}
use libcold.Log.Logger.Delivery.{log_all, AllTook, log_all-expected}

abbrev still_clock : ℕ → Tm
still_clock s = record {
  tm_year = 125;
  tm_mon = 10;
  tm_mday = 6;
  tm_hour = 9;
  tm_min = 5;
  tm_sec = 1;
  tm_wday = 0;
  tm_yday = 309;
}

abbrev no_time : TimeExploded
no_time = record {
  year = 0;
  month = 0;
  day = 0;
  day_of_week = 0;
  day_in_year = 0;
  hour = 0;
  minute = 0;
  second = 0;
  millisecond = 0;
}

abbrev log_entry : LogLevel → List ℕ → LogMessage
log_entry level line = record {
  level = level;
  thread_id = [];
  thread_name = [];
  logger_name = [];
  location = record { function_name = []; file_name = []; line = 0 };
  base_name = [];
  log_time = 9000;
  log_line = line;
}

abbrev nothing_custom : FlagMap
nothing_custom c = none

abbrev bare_line : LogFormatter
bare_line = record {
  pattern = bytes_of "%c%n";
  sequence = log_line_formatter ∷ new_line_formatter ∷ [];
  flag_map = nothing_custom;
}

bare_line_compiles :
    compile_loop no_time nothing_custom (bytes_of "%c%n") [] [] ≡ some bare_line.sequence
unfolding compile_loop handle_flag
bare_line_compiles = refl

bare_line-IsCompiled : IsCompiled still_clock bare_line
bare_line-IsCompiled = record {
  ready =
      (meaning_of_sequence still_clock no_time (bytes_of "%c%n") nothing_custom bare_line.sequence
        (log_entry info []) bare_line_compiles).1;
  says = λ m.
      (meaning_of_sequence still_clock no_time (bytes_of "%c%n") nothing_custom bare_line.sequence m
        bare_line_compiles).0;
}

abbrev two_sinks : Logger
two_sinks = record {
  name = bytes_of "log";
  logger_level = info;
  flush_level = error;
  logger_sinks = fresh stdout_sink true bare_line ∷ fresh basic_file_sink true bare_line ∷ [];
}

abbrev entries : List LogMessage
entries =
    log_entry debug (bytes_of "a")
    ∷ log_entry info (bytes_of "b")
    ∷ log_entry error (bytes_of "c")
    ∷ []

log_all-expected_example :
    (l' : Logger) × (log_all still_clock entries two_sinks ≡ some l')
    × AllTook still_clock (expected still_clock info entries) two_sinks.logger_sinks l'.logger_sinks
log_all-expected_example =
    log_all-expected still_clock two_sinks entries
      (
        record { below = omega arith; later = omega arith },
        (
          record { below = omega arith; later = omega arith },
          (record { below = omega arith; later = omega arith }, tt),
        ),
      )
      ((bare_line-IsCompiled, refl), ((bare_line-IsCompiled, refl), tt))

abbrev texts : List LogSink → List (List ℕ)
texts [] = []
texts (s ∷ ss) = s.written ∷ texts ss

abbrev printed : Option Logger → List (List ℕ)
printed none = []
printed (some l) = texts l.logger_sinks

lines_at_info :
    printed (log_all still_clock entries two_sinks) ≡ bytes_of "b\nc\n" ∷ bytes_of "b\nc\n" ∷ []
unfolding log_all sink_it sink_all sink flush_all flush should_flush format_sequence format_flag
lines_at_info = refl

base_name_example : base_name_of (bytes_of "src/cold/a.cpp") ≡ bytes_of "a.cpp"
unfolding base_name_of
base_name_example = refl

-- A file of the main logger that did not open stops the thread, and one of another logger does not.
abbrev closed_file : LogSink
closed_file = fresh basic_file_sink false bare_line

main_file_stops :
    sink still_clock (log_entry info []) (record closed_file { in_main_logger = true }) ≡ none
unfolding sink
main_file_stops = refl

other_file_reports : sink still_clock (log_entry info []) closed_file ≡ some (closed_file, true)
unfolding sink
other_file_reports = refl
