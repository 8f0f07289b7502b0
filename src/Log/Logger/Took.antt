-- ===== src/Log/Logger/Took.antt =====
-- What a sink does with a record, by its kind: the line that it keeps is what its pattern means.
use libcold.Base.{
  ℕ, ◌-◌, ◌/◌, ◌<◌, ◌≡◌, ◌≢◌, refl, sym, ap, ◌∙◌, List, [], ◌∷◌, ◌++◌, append-nil, append_assoc,
  Bool, true, false, inl, inr, Option, none, some, ltb, if◌then◌else◌, Every, Bool-cases,
}
use libcold.Log.{LogLevel, fatal, level_value, LogMessage}
use libcold.Log.LocalTime.{Tm}
use libcold.Log.Formatter.{FlagMap, LogFormatter, format_sequence}
use libcold.Log.Formatter.Meaning.{meaning, IsReady, IsLogged, texts_of}
use libcold.Log.Formatter.Runs.{AllWritten-format_sequence}
use libcold.Log.Sinks.{
  SinkKind, null_log_sink, stdout_sink, stdout_color_sink, basic_file_sink, LogSink, flush_stream,
  flush_kind, with_line, flush_if_due, flush_interval, written_line, sink_kind,
}
use libcold.Log.Logger.{level_le}

-- The formatter is the compiled form of its pattern.
pub record IsCompiled (to_tm : ℕ → Tm) (f : LogFormatter) : Type 0 where
  pub ready : Every (IsReady to_tm) f.sequence
  pub says :
      (m : LogMessage) → meaning to_tm f.flag_map m f.pattern ≡ some (texts_of to_tm m f.sequence)

-- A record below FATAL.
pub record IsOrdinary (m : LogMessage) : Type 0 where
  pub below : level_value m.level < level_value fatal
  pub later : m.log_time / 1000 ≢ 0

abbrev pub text_or_empty : Option (List ℕ) → List ℕ
text_or_empty none = []
text_or_empty (some s) = s

-- What a sink of a kind writes for a line.
abbrev pub kept_line : SinkKind → Bool → List ℕ → List ℕ
kept_line null_log_sink is_open line = []
kept_line stdout_sink is_open line = line
kept_line stdout_color_sink is_open line = line
kept_line basic_file_sink is_open line = if is_open then line else []

-- The lines of the records at the level or above it, as the pattern means them.
abbrev pub lines_of :
    (ℕ → Tm) → LogLevel → SinkKind → Bool → FlagMap → List ℕ → List LogMessage → List ℕ
lines_of to_tm level kind is_open flags pattern [] = []
lines_of to_tm level kind is_open flags pattern (m ∷ ms) =
    (if level_le level m.level
      then kept_line kind is_open (text_or_empty (meaning to_tm flags m pattern))
      else [])
    ++ lines_of to_tm level kind is_open flags pattern ms

abbrev pub expected : (ℕ → Tm) → LogLevel → List LogMessage → LogSink → List ℕ
expected to_tm level ms s =
    lines_of to_tm level s.kind s.is_open s.formatter.flag_map s.formatter.pattern ms

-- A sink after some lines: they are behind what it has written, and it is the same sink.
pub record Took (to_tm : ℕ → Tm) (lines : List ℕ) (s s' : LogSink) : Type 0 where
  pub written : s'.written ≡ s.written ++ lines
  pub kind : s'.kind ≡ s.kind
  pub is_open : s'.is_open ≡ s.is_open
  pub flags : s'.formatter.flag_map ≡ s.formatter.flag_map
  pub pattern : s'.formatter.pattern ≡ s.formatter.pattern
  pub compiled : IsCompiled to_tm s'.formatter

module _ (to_tm : ℕ → Tm) where
  pub Took-nothing : (s : LogSink) → IsCompiled to_tm s.formatter → Took to_tm [] s s
  Took-nothing s c = record {
    written = sym (append-nil s.written);
    kind = refl;
    is_open = refl;
    flags = refl;
    pattern = refl;
    compiled = c;
  }

  Took-flush_stream :
      (lines : List ℕ) (s s' : LogSink)
      → Took to_tm lines s s'
      → Took to_tm lines s (flush_stream s')
  Took-flush_stream lines s s' t = record {
    written = t.written;
    kind = t.kind;
    is_open = t.is_open;
    flags = t.flags;
    pattern = t.pattern;
    compiled = t.compiled;
  }

  pub Took-flush_kind :
      (lines : List ℕ) (s s' : LogSink) (k : SinkKind)
      → Took to_tm lines s s'
      → Took to_tm lines s (flush_kind k s')
  Took-flush_kind lines s s' null_log_sink t = t
  Took-flush_kind lines s s' stdout_sink t = Took-flush_stream lines s s' t
  Took-flush_kind lines s s' stdout_color_sink t = Took-flush_stream lines s s' t
  Took-flush_kind lines s s' basic_file_sink t = Took-flush_stream lines s s' t

  Took-flush_if_due :
      (lines : List ℕ) (m : LogMessage) (s s' : LogSink)
      → Took to_tm lines s s'
      → Took to_tm lines s (flush_if_due m s')
  Took-flush_if_due lines m s s' t =
      elim (Bool-cases (ltb flush_interval (m.log_time - s'.last_flush_time))) [
        | inl e ↦ rw e (record {
          written = t.written;
          kind = t.kind;
          is_open = t.is_open;
          flags = t.flags;
          pattern = t.pattern;
          compiled = t.compiled;
        })
        | inr e ↦ rw e t
      ]

  -- A sink takes a record.
  pub record Sinked (m : LogMessage) (k : SinkKind) (s : LogSink) : Type 0 where
    pub next : LogSink
    pub report : Bool
    pub runs : sink_kind to_tm m k s ≡ some (next, report)
    pub took :
        Took to_tm
          (kept_line k s.is_open
            (text_or_empty (meaning to_tm s.formatter.flag_map m s.formatter.pattern)))
          s
          next

  -- The line is formatted and written.
  Sinked-written_line :
      (m : LogMessage) (s : LogSink) (after : LogSink → LogSink)
      → IsLogged m
      → IsCompiled to_tm s.formatter
      → ((lines : List ℕ) (t : LogSink) → Took to_tm lines s t → Took to_tm lines s (after t))
      → (next : LogSink) × (written_line after s (format_sequence to_tm m s.formatter.sequence)
          ≡ some (next, false))
        × Took to_tm
            (text_or_empty (meaning to_tm s.formatter.flag_map m s.formatter.pattern))
            s
            next
  Sinked-written_line m s after l c keep =
      let w = AllWritten-format_sequence to_tm m s.formatter.sequence l c.ready in
      let t : LogSink = with_line s (w.next, texts_of to_tm m s.formatter.sequence) in
      (
        after t,
        ap (written_line after s) w.writes,
        keep (text_or_empty (meaning to_tm s.formatter.flag_map m s.formatter.pattern)) t (record {
          written = ap (λ o. s.written ++ text_or_empty o) (sym (c.says m));
          kind = refl;
          is_open = refl;
          flags = refl;
          pattern = refl;
          compiled = record { ready = w.ready; says = λ m'. c.says m' ∙ ap some (sym (w.same m')) };
        }),
      )

  -- A file that is open takes the line.
  Took-if :
      (b : Bool) {line : List ℕ} {writes : Option (LogSink × Bool)}
      (other : Option (LogSink × Bool)) (s t : LogSink)
      → b ≡ true
      → writes ≡ some (t, false)
      → Took to_tm line s t
      → (next : LogSink) × (report : Bool) × ((if b then writes else other) ≡ some (next, report))
        × Took to_tm (if b then line else []) s next
  Took-if true other s t opened e p = (t, false, e, p)
  Took-if false other s t opened e p = cc

  pub Sinked-sink_kind :
      (m : LogMessage) (k : SinkKind) (s : LogSink)
      → IsLogged m
      → IsCompiled to_tm s.formatter
      → s.is_open ≡ true
      → Sinked m k s
  Sinked-sink_kind m null_log_sink s l c opened = record {
    next = s;
    report = false;
    runs = refl;
    took = Took-nothing s c;
  }
  Sinked-sink_kind m stdout_sink s l c opened =
      let w = Sinked-written_line m s flush_stream l c (λ lines t. Took-flush_stream lines s t) in
      record { next = w.0; report = false; runs = w.1; took = w.2 }
  Sinked-sink_kind m stdout_color_sink s l c opened =
      let w = Sinked-written_line m s flush_stream l c (λ lines t. Took-flush_stream lines s t) in
      record { next = w.0; report = false; runs = w.1; took = w.2 }
  Sinked-sink_kind m basic_file_sink s l c opened =
      let w =
        Sinked-written_line m s (flush_if_due m) l c (λ lines t. Took-flush_if_due lines m s t) in
      let f = Took-if s.is_open _ s w.0 opened w.1 w.2 in
      record { next = f.0; report = f.1; runs = f.2; took = f.3 }

  pub Took-append :
      (a b : List ℕ) (s t u : LogSink)
      → Took to_tm a s t
      → Took to_tm b t u
      → Took to_tm (a ++ b) s u
  Took-append a b s t u p q = record {
    written = q.written ∙ ap (λ w. w ++ b) p.written ∙ append_assoc s.written a b;
    kind = q.kind ∙ p.kind;
    is_open = q.is_open ∙ p.is_open;
    flags = q.flags ∙ p.flags;
    pattern = q.pattern ∙ p.pattern;
    compiled = q.compiled;
  }

  -- What is expected of a sink depends on no more than what lines keep.
  pub expected_same :
      (level : LogLevel) (ms : List LogMessage) (a : List ℕ) (s t : LogSink)
      → Took to_tm a s t
      → expected to_tm level ms t ≡ expected to_tm level ms s
  expected_same level ms a s t p i =
      lines_of to_tm level (p.kind i) (p.is_open i) (p.flags i) (p.pattern i) ms
