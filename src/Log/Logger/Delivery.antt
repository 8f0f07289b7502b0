-- ===== src/Log/Logger/Delivery.antt =====
-- What a logger's sinks hold after a run of records.
use libcold.Base.{
  ℕ, ◌≡◌, refl, sym, ap, ◌∙◌, subst, List, [], ◌∷◌, ◌++◌, Bool, true, false, inl, inr, Option, none,
  some, ◌==◌, if◌then◌else◌, arith, Every, Bool-cases,
}
use libcold.Log.{LogLevel, fatal, off, level_value, LogMessage}
use libcold.Log.LocalTime.{Tm}
use libcold.Log.Formatter.Meaning.{meaning, IsLogged}
use libcold.Log.Sinks.{LogSink, flush, sink}
use libcold.Log.Logger.{
  Logger, level_le, sink_then, sink_all, flush_all, should_flush, Sunk, flush_and_end, sink_it,
  count_report,
}
use libcold.Log.Logger.Took.{
  IsCompiled, IsOrdinary, text_or_empty, kept_line, expected, Took, Took-nothing, Took-flush_kind,
  Took-append, expected_same, Sinked-sink_kind,
}

-- The loop of a program that logs: it goes on unless a record ended it.
abbrev pub if_going : (Logger → Option Logger) → Option Sunk → Option Logger
if_going next none = none
if_going next (some s) = if s.ends then some s.logger else next s.logger

unfoldable pub log_all : (ℕ → Tm) → List LogMessage → Logger → Option Logger
log_all to_tm [] l = some l
log_all to_tm (m ∷ ms) l = if_going (λ l'. log_all to_tm ms l') (sink_it to_tm l m)

module _ (to_tm : ℕ → Tm) where
  -- The sinks of a list, one for one.
  pub data AllTook (lines : LogSink → List ℕ) : List LogSink → List LogSink → Type 0 where
    took_none : AllTook lines [] []
    took :
        {s t : LogSink} {ss ts : List LogSink}
        → Took to_tm (lines s) s t
        → AllTook lines ss ts
        → AllTook lines (s ∷ ss) (t ∷ ts)

  AllTook-flush_all :
      (lines : LogSink → List ℕ) {ss ts : List LogSink}
      → AllTook lines ss ts
      → AllTook lines ss (flush_all ts)
  unfolding flush_all flush
  AllTook-flush_all lines took_none = took_none
  AllTook-flush_all lines (took {s} {t} p ps) =
      took (Took-flush_kind to_tm (lines s) s t t.kind p) (AllTook-flush_all lines ps)

  AllTook-flush_if :
      (b : Bool) (lines : LogSink → List ℕ) {ss ts : List LogSink}
      → AllTook lines ss ts
      → AllTook lines ss (if b then flush_all ts else ts)
  AllTook-flush_if true lines a = AllTook-flush_all lines a
  AllTook-flush_if false lines a = a

  -- Each sink has the sequence of its pattern, and its file is open.
  abbrev pub AreReady : List LogSink → Type 0
  AreReady = Every (λ (s : LogSink). IsCompiled to_tm s.formatter × (s.is_open ≡ true))

  AllTook-nothing : (ss : List LogSink) → AreReady ss → AllTook (λ _. []) ss ss
  AllTook-nothing [] c = took_none
  AllTook-nothing (s ∷ ss) c = took (Took-nothing to_tm s c.0.0) (AllTook-nothing ss c.1)

  AreReady-AllTook :
      (lines : LogSink → List ℕ) {ss ts : List LogSink}
      → AllTook lines ss ts
      → AreReady ss
      → AreReady ts
  AreReady-AllTook lines took_none r = tt
  AreReady-AllTook lines (took p ps) r =
      ((p.compiled, p.is_open ∙ r.0.1), AreReady-AllTook lines ps r.1)

  abbrev line_of : LogMessage → LogSink → List ℕ
  line_of m s =
      kept_line s.kind s.is_open
        (text_or_empty (meaning to_tm s.formatter.flag_map m s.formatter.pattern))

  -- All sinks take the record.
  AllTook-sink_all :
      (m : LogMessage) (ss : List LogSink)
      → IsLogged m
      → AreReady ss
      → (ts : List LogSink) × (n : ℕ) × (sink_all to_tm m ss ≡ some (ts, n))
        × AllTook (line_of m) ss ts
  unfolding sink_all sink
  AllTook-sink_all m [] l c = ([], 0, refl, took_none)
  AllTook-sink_all m (s ∷ ss) l c =
      let p = Sinked-sink_kind to_tm m s.kind s l c.0.0 c.0.1 in
      let ps = AllTook-sink_all m ss l c.1 in
      (
        p.next ∷ ps.0,
        count_report p.report ps.1,
        λ i. sink_then (p.runs i) (ps.2 i),
        took p.took ps.3,
      )

  abbrev lines_above : LogLevel → LogMessage → LogSink → List ℕ
  lines_above level m s = if level_le level m.level then line_of m s else []

  AllTook-sink_above :
      (b : Bool) (m : LogMessage) (ss : List LogSink)
      → IsLogged m
      → AreReady ss
      → (ts : List LogSink) × (n : ℕ) × ((if b then sink_all to_tm m ss else some (ss, 0))
          ≡ some (ts, n))
        × AllTook (λ s. if b then line_of m s else []) ss ts
  AllTook-sink_above true m ss l c = AllTook-sink_all m ss l c
  AllTook-sink_above false m ss l c = (ss, 0, refl, AllTook-nothing ss c)

  IsLogged-IsOrdinary : (m : LogMessage) → IsOrdinary m → IsLogged m
  IsLogged-IsOrdinary m o = record {
    level = λ e. absurd (omega (arith, o.below, ap level_value e));
    later = o.later;
  }

  -- A logger after an ordinary record.
  record Stepped (l : Logger) (m : LogMessage) : Type 0 where
    logger : Logger
    reports : ℕ
    runs : sink_it to_tm l m ≡ some (record { logger = logger; reports = reports; ends = false })
    level : logger.logger_level ≡ l.logger_level
    sinks : AllTook (lines_above l.logger_level m) l.logger_sinks logger.logger_sinks

  not_fatal : (m : LogMessage) → IsOrdinary m → (level_value m.level == level_value fatal) ≡ false
  not_fatal m o = ground (arith, o.below)

  Stepped-on :
      (l : Logger) (m : LogMessage)
      → IsOrdinary m
      → AreReady l.logger_sinks
      → level_le off l.logger_level ≡ false
      → Stepped l m
  unfolding sink_it
  Stepped-on l m o c e =
      let a =
        AllTook-sink_above (level_le l.logger_level m.level) m l.logger_sinks
          (IsLogged-IsOrdinary m o) c in
      let l' : Logger = record l {
        logger_sinks = if should_flush l m then flush_all a.0 else a.0;
      } in
      record {
        logger = l';
        reports = a.1;
        runs =
            rw (e, below_off)
              (ap (flush_and_end l m) a.2
                ∙ ap (λ b. some (record { logger = l'; reports = a.1; ends = b })) (not_fatal m o));
        level = refl;
        sinks = AllTook-flush_if (should_flush l m) (lines_above l.logger_level m) a.3;
      }
    where
      below_off : level_le off m.level ≡ false
      below_off = ground (arith, o.below)

  above_off :
      (k : LogLevel) (m : LogMessage)
      → IsOrdinary m
      → level_le off k ≡ true
      → level_le k m.level ≡ false
  above_off k m o e = ground (arith, o.below)

  Stepped-sink_it :
      (l : Logger) (m : LogMessage) → IsOrdinary m → AreReady l.logger_sinks → Stepped l m
  unfolding sink_it
  Stepped-sink_it l m o c = elim (Bool-cases (level_le off l.logger_level)) [
    | inl e ↦ record {
      logger = l;
      reports = 0;
      runs = rw e;
      level = refl;
      sinks =
          subst (λ b. AllTook (λ s. if b then line_of m s else []) l.logger_sinks l.logger_sinks)
            (sym (above_off l.logger_level m o e)) (AllTook-nothing l.logger_sinks c);
    }
    | inr e ↦ Stepped-on l m o c e
  ]

  AllTook-append :
      (lines : LogSink → List ℕ) (level : LogLevel) (ms : List LogMessage) {ss ts us : List LogSink}
      → AllTook lines ss ts
      → AllTook (expected to_tm level ms) ts us
      → AllTook (λ s. lines s ++ expected to_tm level ms s) ss us
  AllTook-append lines level ms took_none took_none = took_none
  AllTook-append lines level ms (took {s} {t} p ps) (took {t = u} q qs) =
      took
        (Took-append to_tm (lines s) (expected to_tm level ms s) s t u p
          (subst (λ x. Took to_tm x t u) (expected_same to_tm level ms (lines s) s t p) q))
        (AllTook-append lines level ms ps qs)

  -- A logger all of whose sinks have their files open does not fail on records below FATAL that are
  -- later than the first second of the epoch: each of its sinks has then written, behind what it had,
  -- the line of each record at the logger's level or above it, in their order, as the sink's own
  -- pattern means it; a null sink has written nothing.
  pub log_all-expected :
      (l : Logger) (ms : List LogMessage)
      → Every IsOrdinary ms
      → AreReady l.logger_sinks
      → (l' : Logger) × (log_all to_tm ms l ≡ some l')
        × AllTook (expected to_tm l.logger_level ms) l.logger_sinks l'.logger_sinks
  unfolding log_all
  log_all-expected l [] o c = (l, refl, AllTook-nothing l.logger_sinks c)
  log_all-expected l (m ∷ ms) o c =
      let s = Stepped-sink_it l m o.0 c in
      let rest =
        log_all-expected s.logger ms o.1
          (AreReady-AllTook (lines_above l.logger_level m) s.sinks c) in
      (
        rest.0,
        ap (if_going (λ l'. log_all to_tm ms l')) s.runs ∙ rest.1,
        AllTook-append (lines_above l.logger_level m) l.logger_level ms s.sinks (
            subst (λ k. AllTook (expected to_tm k ms) s.logger.logger_sinks rest.0.logger_sinks)
              s.level rest.2),
      )
