-- ===== src/Log/Formatter.antt =====
-- cold/log/LogFormatter.h and LogFormatter.cpp: a pattern is compiled to a sequence of formatters,
-- each of which appends its part of a record. The virtual classes are one data type; a custom flag
-- is the function that its Format computes, and its Clone is the same function. unique_ptr and
-- std::move leave `text` empty after it has been moved.
pub mod Meaning
pub mod Runs
mod Tests
use libcold.Base.{
  ℕ, List, [], ◌∷◌, ◌++◌, Bool, true, false, Option, none, some, ◌==◌, if◌then◌else◌, is_empty,
  bytes_of,
}
use libcold.Http.Response.{decimal}
use libcold.Log.{LogLevel, trace, debug, info, warn, error, fatal, off, LogMessage}
use libcold.Log.LocalTime.{
  Tm, TimeExploded, exploded, LocalTimeFormatter, new_local_time, format_time,
}

pub data FlagFormatter : Type 0 where
  thread_id_formatter : FlagFormatter
  thread_name_formatter : FlagFormatter
  function_name_formatter : FlagFormatter
  file_name_formatter : FlagFormatter
  base_name_formatter : FlagFormatter
  file_line_formatter : FlagFormatter
  log_level_formatter : FlagFormatter
  logger_name_formatter : FlagFormatter
  log_line_formatter : FlagFormatter
  new_line_formatter : FlagFormatter
  pattern_text_formatter : List ℕ → FlagFormatter
  local_time_formatter : LocalTimeFormatter → FlagFormatter
  custom_flag_formatter : (LogMessage → List ℕ) → FlagFormatter

-- kLogLevels; the last level is read past the end of the array, and no record has it.
abbrev pub level_text : LogLevel → Option (List ℕ)
level_text trace = some (bytes_of "TRACE")
level_text debug = some (bytes_of "DEBUG")
level_text info = some (bytes_of "INFO ")
level_text warn = some (bytes_of "WARN ")
level_text error = some (bytes_of "ERROR")
level_text fatal = some (bytes_of "FATAL")
level_text off = none

abbrev pub with_text : FlagFormatter → Option (List ℕ) → Option (FlagFormatter × List ℕ)
with_text f none = none
with_text f (some s) = some (f, s)

-- FlagFormatter::Format: what is with_text, and the formatter with what it keeps.
unfoldable pub format_flag : (ℕ → Tm) → LogMessage → FlagFormatter → Option (FlagFormatter × List ℕ)
format_flag to_tm m thread_id_formatter = some (thread_id_formatter, m.thread_id)
format_flag to_tm m thread_name_formatter = some (thread_name_formatter, m.thread_name)
format_flag to_tm m function_name_formatter =
    some (function_name_formatter, m.location.function_name)
format_flag to_tm m file_name_formatter = some (file_name_formatter, m.location.file_name)
format_flag to_tm m base_name_formatter = some (base_name_formatter, m.base_name)
format_flag to_tm m file_line_formatter = some (file_line_formatter, decimal m.location.line)
format_flag to_tm m log_level_formatter = with_text log_level_formatter (level_text m.level)
format_flag to_tm m logger_name_formatter = some (logger_name_formatter, m.logger_name)
format_flag to_tm m log_line_formatter = some (log_line_formatter, m.log_line)
format_flag to_tm m new_line_formatter = some (new_line_formatter, bytes_of "\n")
format_flag to_tm m (pattern_text_formatter text) = some (pattern_text_formatter text, text)
format_flag to_tm m (local_time_formatter f) =
    let (g, s) = format_time to_tm m.log_time f in some (local_time_formatter g, s)
format_flag to_tm m (custom_flag_formatter f) = some (custom_flag_formatter f, f m)

abbrev pub format_then :
    Option (FlagFormatter × List ℕ)
    → Option (List FlagFormatter × List ℕ)
    → Option (List FlagFormatter × List ℕ)
format_then none rest = none
format_then (some x) none = none
format_then (some (f, s)) (some (fs, t)) = some (f ∷ fs, s ++ t)

-- The loop of LogFormatter::Format.
unfoldable pub format_sequence :
    (ℕ → Tm) → LogMessage → List FlagFormatter → Option (List FlagFormatter × List ℕ)
format_sequence to_tm m [] = some ([], [])
format_sequence to_tm m (f ∷ fs) = format_then (format_flag to_tm m f) (format_sequence to_tm m fs)

-- HandleFlag: the formatter that is pushed. `ex` stands for the time that is not initialised.
unfoldable pub handle_flag : TimeExploded → ℕ → Option FlagFormatter
handle_flag ex c =
    if c == b't'
    then some thread_id_formatter
    else if c == b'N'
    then some thread_name_formatter
    else if c == b'f'
    then some function_name_formatter
    else if c == b'F'
    then some file_name_formatter
    else if c == b'l'
    then some file_line_formatter
    else if c == b'L'
    then some log_level_formatter
    else if c == b'n'
    then some new_line_formatter
    else if c == b'T'
    then some (local_time_formatter (new_local_time ex))
    else if c == b'c'
    then some log_line_formatter
    else if c == b'm'
    then some logger_name_formatter
    else if c == b'b'
    then some base_name_formatter
    else none

-- The custom flags: none for a character that is not in the map.
abbrev pub FlagMap : Type 0
FlagMap = ℕ → Option (LogMessage → List ℕ)

abbrev pub custom_or : Option FlagFormatter → Option (LogMessage → List ℕ) → Option FlagFormatter
custom_or default none = default
custom_or default (some f) = some (custom_flag_formatter f)

abbrev pub find_flag : TimeExploded → FlagMap → ℕ → Option FlagFormatter
find_flag ex flags c = custom_or (handle_flag ex c) (flags c)

abbrev pub push_text : List ℕ → List FlagFormatter → List FlagFormatter
push_text text sequence =
    if is_empty text then sequence else sequence ++ pattern_text_formatter text ∷ []

abbrev pub push_flag :
    (List FlagFormatter → Option (List FlagFormatter))
    → List FlagFormatter
    → Option FlagFormatter
    → Option (List FlagFormatter)
push_flag next sequence none = none
push_flag next sequence (some f) = next (sequence ++ f ∷ [])

-- The loop of CompilePattern: the rest of the pattern, the text so far and the sequence so far.
unfoldable pub compile_loop :
    TimeExploded → FlagMap → List ℕ → List ℕ → List FlagFormatter → Option (List FlagFormatter)
compile_loop ex flags [] text sequence = some (push_text text sequence)
compile_loop ex flags (p ∷ []) text sequence =
    if p == b'%' then none else some (push_text (text ++ p ∷ []) sequence)
compile_loop ex flags (p ∷ c ∷ rest) text sequence =
    let plain = compile_loop ex flags (c ∷ rest) (text ++ p ∷ []) sequence in
    let percent = compile_loop ex flags rest (text ++ c ∷ []) sequence in
    let flag =
      push_flag (λ s. compile_loop ex flags rest [] s) (push_text text sequence)
        (find_flag ex flags c) in
    if p == b'%' then if c == b'%' then percent else flag else plain

pub record LogFormatter : Type 0 where
  pub pattern : List ℕ
  pub sequence : List FlagFormatter
  pub flag_map : FlagMap

-- CompilePattern; CompilePatternOrAbort ends the program where it fails.
unfoldable pub compile_pattern : TimeExploded → LogFormatter → Option (List FlagFormatter)
unfolding compile_loop handle_flag
compile_pattern ex f = compile_loop ex f.flag_map f.pattern [] []

abbrev pub with_sequence : LogFormatter → Option (List FlagFormatter) → Option LogFormatter
with_sequence f none = none
with_sequence f (some s) = some (record f { sequence = s })

unfoldable pub new_formatter : TimeExploded → List ℕ → FlagMap → Option LogFormatter
unfolding compile_pattern
new_formatter ex p flags =
    let f : LogFormatter = record { pattern = p; sequence = []; flag_map = flags } in
    with_sequence f (compile_pattern ex f)

unfoldable pub set_pattern : TimeExploded → List ℕ → LogFormatter → Option LogFormatter
unfolding compile_pattern
set_pattern ex p f =
    let f' : LogFormatter = record f { pattern = p } in with_sequence f' (compile_pattern ex f')

-- Clone compiles the pattern again: a copy has a cache of its own.
unfoldable pub clone : TimeExploded → LogFormatter → Option LogFormatter
unfolding new_formatter
clone ex f = new_formatter ex f.pattern f.flag_map
