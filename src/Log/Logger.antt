-- ===== src/Log/Logger.antt =====
-- cold/log/Logger.h and Logger.cpp: a logger, the levels that the configuration sets, and the
-- manager of the loggers. A failed assertion is none.
pub mod Took
pub mod Delivery
mod Tests
use libcold.Base.{
  ℕ, ◌+◌, List, [], ◌∷◌, ◌++◌, Bool, true, false, not, ◌&&◌, Option, none, some, ltb, leb, ◌==◌,
  if◌then◌else◌, get_or, is_some, length, bytes_of, guard, ◌>>=◌, ◌>>◌,
}
use libcold.Base.StdMap.{StdMap, find, assign, erase, contains}
use libcold.Log.{
  LogLevel, trace, debug, info, warn, error, fatal, off, level_value, LogMessage, SourceLocation,
}
use libcold.Log.LocalTime.{Tm, TimeExploded}
use libcold.Log.Formatter.{LogFormatter, clone}
use libcold.Log.Sinks.{
  LogSink, SinkArg, sink, flush, set_sink_pattern, set_formatter, same_ignoring_case, make_sink,
}

-- LocationWrapper: the part of the file's name behind the last '/'.
abbrev pub longer_base : List ℕ → Option (List ℕ) → List ℕ → Option (List ℕ)
longer_base here none rest = none
longer_base here (some s) rest = some s

-- find_last_of and substr: none where there is no '/'.
unfoldable pub after_last_slash : List ℕ → Option (List ℕ)
after_last_slash [] = none
after_last_slash (c ∷ s) =
    let later = after_last_slash s in
    if is_some later then later else if c == b'/' then some s else none

abbrev pub part_or_whole : List ℕ → Option (List ℕ) → List ℕ
part_or_whole whole none = whole
part_or_whole whole (some s) = s

unfoldable pub base_name_of : List ℕ → List ℕ
unfolding after_last_slash
base_name_of file_name = part_or_whole file_name (after_last_slash file_name)

pub record Logger : Type 0 where
  pub name : List ℕ
  pub logger_level : LogLevel
  pub flush_level : LogLevel
  pub logger_sinks : List LogSink

abbrev pub new_logger : List ℕ → List LogSink → Logger
new_logger name sinks = record {
  name = name;
  logger_level = info;
  flush_level = off;
  logger_sinks = sinks;
}

abbrev pub level_le : LogLevel → LogLevel → Bool
level_le a b = leb (level_value a) (level_value b)

-- The sinks one after the other, and how many of them report an error to the main logger.
abbrev pub count_report : Bool → ℕ → ℕ
count_report true n = n + 1
count_report false n = n

abbrev pub sink_then :
    Option (LogSink × Bool) → Option (List LogSink × ℕ) → Option (List LogSink × ℕ)
sink_then none rest = none
sink_then (some x) none = none
sink_then (some (s, r)) (some (ss, n)) = some (s ∷ ss, count_report r n)

unfoldable pub sink_all : (ℕ → Tm) → LogMessage → List LogSink → Option (List LogSink × ℕ)
sink_all to_tm m [] = some ([], 0)
sink_all to_tm m (s ∷ ss) = sink_then (sink to_tm m s) (sink_all to_tm m ss)

-- Logger::Flush.
unfoldable pub flush_all : List LogSink → List LogSink
flush_all [] = []
flush_all (s ∷ ss) = flush s ∷ flush_all ss

unfoldable pub should_flush : Logger → LogMessage → Bool
should_flush l m = ltb (level_value m.level) (level_value off) && level_le l.flush_level m.level

-- What a call of SinkIt leaves: the logger, and how many sinks report an error; `ends` where the
-- program ends by abort().
pub record Sunk : Type 0 where
  pub logger : Logger
  pub reports : ℕ
  pub ends : Bool

-- The part behind the sinks.
abbrev pub flush_and_end : Logger → LogMessage → Option (List LogSink × ℕ) → Option Sunk
flush_and_end l m none = none
flush_and_end l m (some (sinks, n)) = some (record {
  logger = record l { logger_sinks = if should_flush l m then flush_all sinks else sinks };
  reports = n;
  ends = level_value m.level == level_value fatal;
})

abbrev pub sink_above : (ℕ → Tm) → Logger → LogMessage → Option (List LogSink × ℕ)
sink_above to_tm l m =
    if level_le l.logger_level m.level
    then sink_all to_tm m l.logger_sinks
    else some (l.logger_sinks, 0)

-- Logger::SinkIt.
unfoldable pub sink_it : (ℕ → Tm) → Logger → LogMessage → Option Sunk
unfolding sink_all flush_all should_flush
sink_it to_tm l m =
    if level_le off l.logger_level
    then some (record { logger = l; reports = 0; ends = false })
    else if level_le off m.level
    then none
    else flush_and_end l m (sink_above to_tm l m)

-- Logger::Log; the line is what fmt::format made.
unfoldable pub log :
    (ℕ → Tm) → Logger → LogLevel → SourceLocation → List ℕ → List ℕ → ℕ → List ℕ → Option Sunk
unfolding sink_it base_name_of
log to_tm l level location thread_id thread_name now line = sink_it to_tm l (record {
  level = level;
  thread_id = thread_id;
  thread_name = thread_name;
  logger_name = l.name;
  location = location;
  base_name = base_name_of location.file_name;
  log_time = now;
  log_line = line;
})

abbrev pub cons_then : Option LogSink → Option (List LogSink) → Option (List LogSink)
cons_then none rest = none
cons_then (some s) none = none
cons_then (some s) (some ss) = some (s ∷ ss)

-- Logger::SetPattern and SetFormatter.
unfoldable pub set_patterns : TimeExploded → List ℕ → List LogSink → Option (List LogSink)
unfolding set_sink_pattern
set_patterns ex pattern [] = some []
set_patterns ex pattern (s ∷ ss) =
    cons_then (set_sink_pattern ex pattern s) (set_patterns ex pattern ss)

abbrev pub with_clone : Option LogFormatter → LogSink → Option LogSink
with_clone none s = none
with_clone (some f) s = some (set_formatter f s)

unfoldable pub set_formatters : TimeExploded → LogFormatter → List LogSink → Option (List LogSink)
unfolding set_formatter clone
set_formatters ex f [] = some []
set_formatters ex f (s ∷ ss) = cons_then (with_clone (clone ex f) s) (set_formatters ex f ss)
