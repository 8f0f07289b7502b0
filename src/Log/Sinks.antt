-- ===== src/Log/Sinks.antt =====
-- cold/log/sinks and cold/log/LogSinkFactory.h: where a logger's lines go. What fwrite was given is
-- kept in `written`, and `flushed` of its bytes are out; the calls of fwrite, fopen and fflush are
-- those of the C library, and the answer of fopen is an argument.
use libcold.Base.{
  ℕ, ◌+◌, ◌-◌, ◌/◌, ◌%◌, List, [], ◌∷◌, ◌++◌, map, Bool, true, false, Option, none, some, ◌&&◌, ltb,
  leb, ◌==◌, if◌then◌else◌, is_empty, length, bytes_of, str_eq, ◌>>=◌,
}
use libcold.Log.{LogLevel, trace, debug, info, warn, error, fatal, off, LogMessage}
use libcold.Log.LocalTime.{Tm, TimeExploded}
use libcold.Log.Formatter.{
  FlagFormatter, FlagMap, LogFormatter, format_sequence, new_formatter, set_pattern,
}

pub data SinkKind : Type 0 where
  null_log_sink stdout_sink stdout_color_sink basic_file_sink : SinkKind

-- One record for the classes; only a file can fail to open, and only it has a time of a last flush.
-- in_main_logger: the main logger has the sink, and lets ERROR through.
pub record LogSink : Type 0 where
  pub kind : SinkKind
  pub formatter : LogFormatter
  pub is_open : Bool
  pub in_main_logger : Bool
  pub last_flush_time : ℕ
  pub written : List ℕ
  pub flushed : ℕ

-- kFlushInterval, in milliseconds.
abbrev pub flush_interval : ℕ
flush_interval = 5000

unfoldable pub default_pattern : List ℕ
default_pattern = bytes_of "%T %L <%N:%t> %c [%b:%l]%n"

unfoldable pub color_pattern : List ℕ
color_pattern = bytes_of "%T %C%L%E <%N:%t> %c [%b:%l]%n"

-- The colour of a level, of cold/util/ShellColor.h; there is none for OFF.
abbrev pub color_value : LogLevel → ℕ
color_value trace = 36
color_value debug = 34
color_value info = 32
color_value warn = 35
color_value error = 31
color_value fatal = 91
color_value off = 0

-- ColorControl::Pad, for a uint8_t: a digit stays where the next one is not written over it.
unfoldable pub pad_color : ℕ → List ℕ
pad_color v =
    (if ltb 0 (v / 100) then (v / 100 + b'0') ∷ [] else [])
    ++ ((if ltb 0 (v / 10 % 10) then (v / 10 % 10 + b'0') ∷ [] else []) ++ (v % 10 + b'0') ∷ [])

abbrev pub escape : List ℕ
escape = 27 ∷ b'[' ∷ []

unfoldable pub color_start : LogMessage → List ℕ
unfolding pad_color
color_start m = escape ++ (pad_color (color_value m.level) ++ bytes_of "m")

abbrev pub color_end : LogMessage → List ℕ
color_end m = escape ++ bytes_of "0m"

abbrev pub color_flags : FlagMap
color_flags c = if c == b'C' then some color_start else if c == b'E' then some color_end else none

abbrev pub fresh : SinkKind → Bool → LogFormatter → LogSink
fresh kind is_open f = record {
  kind = kind;
  formatter = f;
  is_open = is_open;
  in_main_logger = false;
  last_flush_time = 0;
  written = [];
  flushed = 0;
}

abbrev pub no_flags : FlagMap
no_flags c = none

-- fflush of the sink's stream.
abbrev pub flush_stream : LogSink → LogSink
flush_stream s = record s { flushed = length s.written }

abbrev pub flush_kind : SinkKind → LogSink → LogSink
flush_kind null_log_sink s = s
flush_kind stdout_sink s = flush_stream s
flush_kind stdout_color_sink s = flush_stream s
flush_kind basic_file_sink s = flush_stream s

-- LogSink::Flush.
unfoldable pub flush : LogSink → LogSink
flush s = flush_kind s.kind s

-- The line is written.
abbrev pub with_line : LogSink → List FlagFormatter × List ℕ → LogSink
with_line s (fs, line) = record s {
  formatter = record s.formatter { sequence = fs };
  written = s.written ++ line;
}

abbrev pub flush_if_due : LogMessage → LogSink → LogSink
flush_if_due m s =
    if ltb flush_interval (m.log_time - s.last_flush_time)
    then record (flush_stream s) { last_flush_time = m.log_time }
    else s

abbrev pub written_line :
    (LogSink → LogSink) → LogSink → Option (List FlagFormatter × List ℕ) → Option (LogSink × Bool)
written_line after s none = none
written_line after s (some x) = some (after (with_line s x), false)

-- A file that did not open reports an error to the main logger while the mutex of the sink is held:
-- where the sink is one of the main logger's, the thread waits for the mutex that it holds, and there
-- is no outcome.
abbrev pub sink_kind : (ℕ → Tm) → LogMessage → SinkKind → LogSink → Option (LogSink × Bool)
sink_kind to_tm m null_log_sink s = some (s, false)
sink_kind to_tm m stdout_sink s =
    written_line flush_stream s (format_sequence to_tm m s.formatter.sequence)
sink_kind to_tm m stdout_color_sink s =
    written_line flush_stream s (format_sequence to_tm m s.formatter.sequence)
sink_kind to_tm m basic_file_sink s =
    if s.is_open
    then written_line (flush_if_due m) s (format_sequence to_tm m s.formatter.sequence)
    else if s.in_main_logger
    then none
    else some (s, true)

-- LogSink::Sink: the sink after it, and whether the sink reports an error to the main logger.
unfoldable pub sink : (ℕ → Tm) → LogMessage → LogSink → Option (LogSink × Bool)
sink to_tm m s = sink_kind to_tm m s.kind s

abbrev pub with_formatter : LogSink → Option LogFormatter → Option LogSink
with_formatter s none = none
with_formatter s (some f) = some (record s { formatter = f })

-- LogSink::SetPattern and SetFormatter.
unfoldable pub set_sink_pattern : TimeExploded → List ℕ → LogSink → Option LogSink
unfolding set_pattern
set_sink_pattern ex pattern s = with_formatter s (set_pattern ex pattern s.formatter)

unfoldable pub set_formatter : LogFormatter → LogSink → LogSink
set_formatter f s = record s { formatter = f }

-- An argument of a sink in the configuration.
pub data SinkArg : Type 0 where
  int_arg : ℕ → SinkArg
  bool_arg : Bool → SinkArg
  text_arg : List ℕ → SinkArg

abbrev pub to_lower : ℕ → ℕ
to_lower c = if leb b'A' c && leb c b'Z' then c + 32 else c

-- strcasecmp answers that the texts are the same, in the "C" locale and with no zero in them.
abbrev pub same_ignoring_case : List ℕ → List ℕ → Bool
same_ignoring_case s t = str_eq (map to_lower s) (map to_lower t)

-- The sinks that the factory makes: std::get of another alternative, and args[0] where there are no
-- arguments, fail. `opens` is the answer of fopen for a file and a mode.
abbrev pub make_file_sink : (List ℕ → Bool → Bool) → List SinkArg → LogFormatter → Option LogSink
make_file_sink opens (text_arg name ∷ []) f = some (fresh basic_file_sink (opens name false) f)
make_file_sink opens (text_arg name ∷ bool_arg append ∷ rest) f =
    some (fresh basic_file_sink (opens name append) f)
make_file_sink opens _ f = none

abbrev pub make_kind :
    (List ℕ → Bool → Bool) → TimeExploded → List ℕ → List SinkArg → Option LogSink
make_kind opens ex type args =
    if same_ignoring_case type (bytes_of "nullsink")
    then (do f ← new_formatter ex default_pattern no_flags; some (fresh null_log_sink true f))
    else if same_ignoring_case type (bytes_of "stdoutsink")
    then (do f ← new_formatter ex default_pattern no_flags; some (fresh stdout_sink true f))
    else if same_ignoring_case type (bytes_of "basicfilesink")
    then (do f ← new_formatter ex default_pattern no_flags; make_file_sink opens args f)
    else if same_ignoring_case type (bytes_of "stdoutcolorsink")
    then (do f ← new_formatter ex color_pattern color_flags; some (fresh stdout_color_sink true f))
    else none

-- LogSinkFactory::MakeSink.
unfoldable pub make_sink :
    (List ℕ → Bool → Bool) → TimeExploded → List ℕ → List ℕ → List SinkArg → Option LogSink
unfolding set_sink_pattern
make_sink opens ex type pattern args = do
  s ← make_kind opens ex type args
  if is_empty pattern then some s else set_sink_pattern ex pattern s
