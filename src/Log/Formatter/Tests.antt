-- ===== src/Log/Formatter/Tests.antt =====
-- Runs of a compiled pattern, and the theorems at concrete records.
use libcold.Base.{ℕ, ◌≡◌, refl, List, [], ◌∷◌, none, some, arith, bytes_of}
use libcold.Log.{warn, LogMessage}
use libcold.Log.LocalTime.{
  Tm, TimeExploded, LocalTimeFormatter, new_local_time, IsCached, new_local_time-IsCached,
  format_time, update_second, time_text, format_time-time_text,
}
use libcold.Log.Formatter.{
  LogFormatter, FlagMap, new_formatter, compile_pattern, compile_loop, handle_flag, format_sequence,
  format_flag,
}
use libcold.Log.Formatter
use libcold.Log.Formatter.Meaning.{meaning}
use libcold.Log.Formatter.Runs.{format_all, meanings, new_formatter-meanings}

abbrev clock : ℕ → Tm
clock s = record {
  tm_year = 125;
  tm_mon = 10;
  tm_mday = 6;
  tm_hour = 9;
  tm_min = 5;
  tm_sec = s;
  tm_wday = 0;
  tm_yday = 309;
}

abbrev unset : TimeExploded
unset = record {
  year = 0;
  month = 0;
  day = 0;
  day_of_week = 0;
  day_in_year = 0;
  hour = 0;
  minute = 0;
  second = 0;
  millisecond = 0;
}

abbrev record_at : ℕ → LogMessage
record_at now = record {
  level = warn;
  thread_id = bytes_of "7";
  thread_name = bytes_of "main";
  logger_name = bytes_of "log";
  location = record { function_name = bytes_of "run"; file_name = bytes_of "src/a.cpp"; line = 3 };
  base_name = bytes_of "a.cpp";
  log_time = now;
  log_line = bytes_of "hello";
}

abbrev no_custom : FlagMap
no_custom c = none

abbrev time_and_line : List ℕ
time_and_line = bytes_of "%T 100%% %L %c%n"

abbrev compiled : LogFormatter
compiled = record { pattern = time_and_line; sequence = []; flag_map = no_custom }

first_line_text :
    meaning clock no_custom (record_at 42007) time_and_line
    ≡ some (bytes_of "2025-11-06 09:05:42.007 100% WARN  hello\n")
unfolding meaning
first_line_text = refl

bad_flag : new_formatter unset (bytes_of "%c %x") no_custom ≡ none
unfolding new_formatter compile_pattern
bad_flag = refl

lone_percent : new_formatter unset (bytes_of "%c %") no_custom ≡ none
unfolding new_formatter compile_pattern
lone_percent = refl

-- In the first second of the epoch a new formatter writes its placeholder.
placeholder : (format_time clock 500 (new_local_time unset)).1 ≡ bytes_of "xxxx-xx-xx oo:oo:oo.500"
unfolding format_time update_second
placeholder = refl

abbrev cached : LocalTimeFormatter
cached = new_local_time unset

format_time-time_text_example :
    ((format_time clock 42007 cached).1 ≡ time_text clock 42007)
    × IsCached clock (format_time clock 42007 cached).0
format_time-time_text_example =
    format_time-time_text clock 42007 cached (new_local_time-IsCached clock unset) (omega arith)

abbrev line_only : LogFormatter
line_only = record {
  pattern = bytes_of "%T %c%n";
  sequence =
      Formatter.local_time_formatter (new_local_time unset)
      ∷ Formatter.pattern_text_formatter (bytes_of " ")
      ∷ Formatter.log_line_formatter
      ∷ Formatter.new_line_formatter
      ∷ [];
  flag_map = no_custom;
}

line_only_compiles : new_formatter unset (bytes_of "%T %c%n") no_custom ≡ some line_only
unfolding new_formatter compile_pattern
line_only_compiles = refl

abbrev two_records : List LogMessage
two_records = record_at 42007 ∷ record_at 42008 ∷ []

new_formatter-meanings_example :
    format_all clock line_only.sequence two_records
    ≡ meanings clock no_custom (bytes_of "%T %c%n") two_records
new_formatter-meanings_example =
    new_formatter-meanings clock unset (bytes_of "%T %c%n") no_custom line_only two_records
      line_only_compiles
      (
        record { level = λ e. cc; later = omega arith },
        (record { level = λ e. cc; later = omega arith }, tt),
      )
