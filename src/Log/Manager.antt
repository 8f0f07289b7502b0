-- ===== src/Log/Manager.antt =====
-- cold/log/Logger.cpp and LogFactory.h: the main logger that the configuration describes, and the
-- registry of loggers. The configuration's answers are arguments; a logger in the registry is the
-- address of the object.
mod Tests
use libcold.Base.{
  ℕ, zero, suc, ◌+◌, ◌≡◌, ◌≢◌, refl, ap, ◌∙◌, sym, List, [], ◌∷◌, Bool, true, false, inl, inr,
  Option, none, some, ◌==◌, ◌&&◌, not, if◌then◌else◌, arith, is_empty, is_some, bytes_of, map,
  str_eq, str_eq_iff, Bool-cases, ◌>>=◌, get_or,
}
use libcold.Base.StdMap.{StdMap, find, assign, erase, contains}
use libcold.Log.{LogLevel, trace, debug, info, warn, error, fatal, off}
use libcold.Log.LocalTime.{TimeExploded}
use libcold.Log.Formatter.{new_formatter}
use libcold.Log.Sinks.{
  LogSink, SinkArg, stdout_color_sink, fresh, color_pattern, color_flags, set_sink_pattern,
  same_ignoring_case, to_lower, make_sink,
}
use libcold.Log.Logger.{Logger, new_logger, cons_then, level_le}

-- The names of the levels, in the order of their values.
abbrev pub level_names : List (List ℕ × LogLevel)
level_names =
    (bytes_of "trace", trace)
    ∷ (bytes_of "debug", debug)
    ∷ (bytes_of "info", info)
    ∷ (bytes_of "warn", warn)
    ∷ (bytes_of "error", error)
    ∷ (bytes_of "fatal", fatal)
    ∷ (bytes_of "off", off)
    ∷ []

-- The two tests of a round: the level is set where strcasecmp answers 0, the flush level where it
-- does not.
abbrev pub set_level_if : Bool → LogLevel → Logger → Logger
set_level_if true level l = record l { logger_level = level }
set_level_if false level l = l

abbrev pub set_flush_level_if : Bool → LogLevel → Logger → Logger
set_flush_level_if true level l = record l { flush_level = level }
set_flush_level_if false level l = l

unfoldable pub set_levels : List ℕ → List ℕ → List (List ℕ × LogLevel) → Logger → Logger
set_levels level flush [] l = l
set_levels level flush ((name, value) ∷ rest) l = set_levels level flush rest (
    set_flush_level_if (not (same_ignoring_case flush name)) value
      (set_level_if (same_ignoring_case level name) value l))

-- The configuration of a sink, and what the configuration says on logs.
pub record SinkConfig : Type 0 where
  pub type : List ℕ
  pub pattern : Option (List ℕ)
  pub args : List SinkArg

pub record LogsConfig : Type 0 where
  pub name : Option (List ℕ)
  pub level : Option (List ℕ)
  pub pattern : Option (List ℕ)
  pub sinks : Option (List SinkConfig)

abbrev pub get_or_default : Option (List ℕ) → List ℕ → List ℕ
get_or_default none d = d
get_or_default (some s) d = s

abbrev pub configured_sink :
    (List ℕ → Bool → Bool) → TimeExploded → List ℕ → SinkConfig → Option LogSink
configured_sink opens ex logger_pattern c =
    let pattern = get_or_default c.pattern [] in
    do
      s ← make_sink opens ex c.type pattern c.args
      (if is_empty pattern && not (is_empty logger_pattern)
          then set_sink_pattern ex logger_pattern s
          else some s)

unfoldable pub configured_sinks :
    (List ℕ → Bool → Bool) → TimeExploded → List ℕ → List SinkConfig → Option (List LogSink)
unfolding make_sink
configured_sinks opens ex logger_pattern [] = some []
configured_sinks opens ex logger_pattern (c ∷ cs) =
    cons_then (configured_sink opens ex logger_pattern c)
      (configured_sinks opens ex logger_pattern cs)

-- The sinks of the main logger: those of the configuration, or one for the terminal.
abbrev pub main_sinks :
    (List ℕ → Bool → Bool)
    → TimeExploded
    → List ℕ
    → Option (List SinkConfig)
    → Option (List LogSink)
main_sinks opens ex logger_pattern (some cs) = configured_sinks opens ex logger_pattern cs
main_sinks opens ex logger_pattern none = do
  f ← new_formatter ex color_pattern color_flags
  s ←
      (if is_empty logger_pattern
        then some (fresh stdout_color_sink true f)
        else set_sink_pattern ex logger_pattern (fresh stdout_color_sink true f))
  some (s ∷ [])

-- The sinks of the logger that becomes the main one.
abbrev pub as_main : Logger → Logger
as_main l = record l {
  logger_sinks =
      map (λ (s : LogSink). record s { in_main_logger = level_le l.logger_level error })
        l.logger_sinks;
}

-- LogManager::LogManager: both levels are read from "/logs/level".
unfoldable pub main_logger : (List ℕ → Bool → Bool) → TimeExploded → LogsConfig → Option Logger
unfolding set_levels configured_sinks
main_logger opens ex c =
    let name = get_or_default c.name (bytes_of "main-logger") in
    let level = get_or_default c.level (bytes_of "info") in
    let flush = get_or_default c.level (bytes_of "flush-level") in
    do
      sinks ← main_sinks opens ex (get_or_default c.pattern []) c.sinks
      some (as_main (set_levels level flush level_names (new_logger name sinks)))

pub record LogManager : Type 0 where
  pub main_logger : ℕ
  pub loggers_map : StdMap ℕ

abbrev pub set_main_logger : ℕ → LogManager → LogManager
set_main_logger logger m = record m { main_logger = logger }

unfoldable pub get_logger : List ℕ → LogManager → Option ℕ
get_logger name m = find name m.loggers_map

unfoldable pub remove_logger : List ℕ → LogManager → LogManager × Bool
remove_logger name m =
    (record m { loggers_map = erase name m.loggers_map }, contains name m.loggers_map)

unfoldable pub add_logger : List ℕ → ℕ → LogManager → LogManager
add_logger name logger m = record m { loggers_map = assign name logger m.loggers_map }

-- The level that a text names, whatever the case of its letters.
abbrev pub level_named : List ℕ → LogLevel → LogLevel
level_named s default =
    if same_ignoring_case s (bytes_of "off")
    then off
    else if same_ignoring_case s (bytes_of "fatal")
    then fatal
    else if same_ignoring_case s (bytes_of "error")
    then error
    else if same_ignoring_case s (bytes_of "warn")
    then warn
    else if same_ignoring_case s (bytes_of "info")
    then info
    else if same_ignoring_case s (bytes_of "debug")
    then debug
    else if same_ignoring_case s (bytes_of "trace")
    then trace
    else default

abbrev last_named : List ℕ → List (List ℕ × LogLevel) → LogLevel → LogLevel
last_named s [] d = d
last_named s ((name, value) ∷ rest) d =
    last_named s rest (if same_ignoring_case s name then value else d)

abbrev last_unnamed : List ℕ → List (List ℕ × LogLevel) → LogLevel → LogLevel
last_unnamed s [] d = d
last_unnamed s ((name, value) ∷ rest) d =
    last_unnamed s rest (if not (same_ignoring_case s name) then value else d)

level_of_round :
    (b c : Bool) (v : LogLevel) (l : Logger)
    → (set_flush_level_if c v (set_level_if b v l)).logger_level ≡ (if b then v else l.logger_level)
level_of_round true true v l = refl
level_of_round true false v l = refl
level_of_round false true v l = refl
level_of_round false false v l = refl

flush_of_round :
    (b c : Bool) (v : LogLevel) (l : Logger)
    → (set_flush_level_if c v (set_level_if b v l)).flush_level ≡ (if c then v else l.flush_level)
flush_of_round true true v l = refl
flush_of_round true false v l = refl
flush_of_round false true v l = refl
flush_of_round false false v l = refl

module _ (level flush : List ℕ) where
  levels_of_loop :
      (t : List (List ℕ × LogLevel)) (l : Logger)
      → ((set_levels level flush t l).logger_level ≡ last_named level t l.logger_level)
        × ((set_levels level flush t l).flush_level ≡ last_unnamed flush t l.flush_level)
  unfolding set_levels
  levels_of_loop [] l = (refl, refl)
  levels_of_loop ((name, value) ∷ rest) l =
      let b = same_ignoring_case level name in
      let c = not (same_ignoring_case flush name) in
      let ih = levels_of_loop rest (set_flush_level_if c value (set_level_if b value l)) in
      (
        ih.0 ∙ ap (last_named level rest) (level_of_round b c value l),
        ih.1 ∙ ap (last_unnamed flush rest) (flush_of_round b c value l),
      )

  not_fatal_of_off :
      same_ignoring_case flush (bytes_of "off") ≡ true
      → same_ignoring_case flush (bytes_of "fatal") ≡ false
  not_fatal_of_off e =
      ap (λ w. str_eq w (bytes_of "fatal")) ((str_eq_iff (map to_lower flush) (bytes_of "off")).0 e)

  flush_of_names :
      (d : LogLevel)
      → last_unnamed flush level_names d
        ≡ (if same_ignoring_case flush (bytes_of "off") then fatal else off)
  flush_of_names d = elim (Bool-cases (same_ignoring_case flush (bytes_of "off"))) [
    | inl e ↦ rw (e, not_fatal_of_off e)
    | inr e ↦ rw e
  ]

levels_of_sinks :
    (c : LogsConfig) (o : Option (List LogSink)) (l : Logger) (level flush name : List ℕ)
    → (do sinks ← o; some (set_levels level flush level_names (new_logger name sinks))) ≡ some l
    → (l.logger_level ≡ level_named level info)
      × (l.flush_level ≡ (if same_ignoring_case flush (bytes_of "off") then fatal else off))
levels_of_sinks c none l level flush name e = cc
levels_of_sinks c (some sinks) l level flush name e =
    let l' = set_levels level flush level_names (new_logger name sinks) in
    let h = levels_of_loop level flush level_names (new_logger name sinks) in
    let same : l' ≡ l = ground arith in
    (
      ap (λ (x : Logger). x.logger_level) (sym same) ∙ h.0,
      ap (λ (x : Logger). x.flush_level) (sym same) ∙ h.1 ∙ flush_of_names level flush off,
    )
