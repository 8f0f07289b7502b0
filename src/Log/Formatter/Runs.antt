-- ===== src/Log/Formatter/Runs.antt =====
-- The text that a formatter writes over a run of records.
use libcold.Base.{
  ℕ, ◌≡◌, ◌↔◌, refl, sym, ap, ◌∙◌, subst, List, [], ◌∷◌, ◌++◌, Option, none, some, Every, arith,
}
use libcold.Log.{LogLevel, trace, debug, info, warn, error, fatal, off, LogMessage}
use libcold.Log.LocalTime.{Tm, TimeExploded, format_time, format_time-time_text}
use libcold.Log.Formatter.{
  FlagFormatter, thread_id_formatter, thread_name_formatter, function_name_formatter,
  file_name_formatter, base_name_formatter, file_line_formatter, log_level_formatter,
  logger_name_formatter, log_line_formatter, new_line_formatter, pattern_text_formatter,
  local_time_formatter, custom_flag_formatter, level_text, with_text, format_flag, format_then,
  format_sequence, FlagMap, compile_loop, LogFormatter, with_sequence, new_formatter,
}
use libcold.Log.Formatter.Meaning.{
  level_name, meaning, IsReady, IsLogged, text_of, texts_of, AgreesFrom, no_meaning, means,
  AgreesFrom-compile_loop,
}

-- The records one after the other, each with the caches that the last one left.
abbrev pub line_then : List ℕ → Option (List (List ℕ)) → Option (List (List ℕ))
line_then s none = none
line_then s (some lines) = some (s ∷ lines)

abbrev pub lines_then :
    (List FlagFormatter → Option (List (List ℕ)))
    → Option (List FlagFormatter × List ℕ)
    → Option (List (List ℕ))
lines_then next none = none
lines_then next (some (fs, s)) = line_then s (next fs)

unfoldable pub format_all : (ℕ → Tm) → List FlagFormatter → List LogMessage → Option (List (List ℕ))
format_all to_tm fs [] = some []
format_all to_tm fs (m ∷ ms) =
    lines_then (λ gs. format_all to_tm gs ms) (format_sequence to_tm m fs)

abbrev pub meaning_then : Option (List ℕ) → Option (List (List ℕ)) → Option (List (List ℕ))
meaning_then none rest = none
meaning_then (some s) rest = line_then s rest

-- What the pattern means for each of the records.
unfoldable pub meanings : (ℕ → Tm) → FlagMap → List ℕ → List LogMessage → Option (List (List ℕ))
meanings to_tm flags pattern [] = some []
meanings to_tm flags pattern (m ∷ ms) =
    meaning_then (meaning to_tm flags m pattern) (meanings to_tm flags pattern ms)

-- The same formatters, up to their caches.
abbrev SameTexts : (ℕ → Tm) → FlagFormatter → FlagFormatter → Type 0
SameTexts to_tm f g = (m : LogMessage) → text_of to_tm m g ≡ text_of to_tm m f

record Written (to_tm : ℕ → Tm) (m : LogMessage) (f : FlagFormatter) : Type 0 where
  next : FlagFormatter
  writes : format_flag to_tm m f ≡ some (next, text_of to_tm m f)
  ready : IsReady to_tm next
  same : SameTexts to_tm f next

module _ (to_tm : ℕ → Tm) where
  level_text-level_name : (l : LogLevel) → (l ≡ off → ⊥) → level_text l ≡ some (level_name l)
  level_text-level_name trace h = refl
  level_text-level_name debug h = refl
  level_text-level_name info h = refl
  level_text-level_name warn h = refl
  level_text-level_name error h = refl
  level_text-level_name fatal h = refl
  level_text-level_name off h = absurd (h refl)

  Written-format_flag :
      (m : LogMessage) (f : FlagFormatter) → IsLogged m → IsReady to_tm f → Written to_tm m f
  unfolding format_flag
  Written-format_flag m (local_time_formatter f) l r =
      let t = format_time-time_text to_tm m.log_time f r l.later in
      record {
        next = local_time_formatter (format_time to_tm m.log_time f).0;
        writes = ap (λ s. some (local_time_formatter (format_time to_tm m.log_time f).0, s)) t.0;
        ready = t.1;
        same = λ m'. refl;
      }
  Written-format_flag m log_level_formatter l r = record {
    next = log_level_formatter;
    writes = ap (with_text log_level_formatter) (level_text-level_name m.level l.level);
    ready = tt;
    same = λ m'. refl;
  }
  Written-format_flag m thread_id_formatter l r = record {
    next = thread_id_formatter;
    writes = refl;
    ready = tt;
    same = λ m'. refl;
  }
  Written-format_flag m thread_name_formatter l r = record {
    next = thread_name_formatter;
    writes = refl;
    ready = tt;
    same = λ m'. refl;
  }
  Written-format_flag m function_name_formatter l r = record {
    next = function_name_formatter;
    writes = refl;
    ready = tt;
    same = λ m'. refl;
  }
  Written-format_flag m file_name_formatter l r = record {
    next = file_name_formatter;
    writes = refl;
    ready = tt;
    same = λ m'. refl;
  }
  Written-format_flag m base_name_formatter l r = record {
    next = base_name_formatter;
    writes = refl;
    ready = tt;
    same = λ m'. refl;
  }
  Written-format_flag m file_line_formatter l r = record {
    next = file_line_formatter;
    writes = refl;
    ready = tt;
    same = λ m'. refl;
  }
  Written-format_flag m logger_name_formatter l r = record {
    next = logger_name_formatter;
    writes = refl;
    ready = tt;
    same = λ m'. refl;
  }
  Written-format_flag m log_line_formatter l r = record {
    next = log_line_formatter;
    writes = refl;
    ready = tt;
    same = λ m'. refl;
  }
  Written-format_flag m new_line_formatter l r = record {
    next = new_line_formatter;
    writes = refl;
    ready = tt;
    same = λ m'. refl;
  }
  Written-format_flag m (pattern_text_formatter t) l r = record {
    next = pattern_text_formatter t;
    writes = refl;
    ready = tt;
    same = λ m'. refl;
  }
  Written-format_flag m (custom_flag_formatter t) l r = record {
    next = custom_flag_formatter t;
    writes = refl;
    ready = tt;
    same = λ m'. refl;
  }

  pub record AllWritten (m : LogMessage) (fs : List FlagFormatter) : Type 0 where
    pub next : List FlagFormatter
    pub writes : format_sequence to_tm m fs ≡ some (next, texts_of to_tm m fs)
    pub ready : Every (IsReady to_tm) next
    pub same : (m' : LogMessage) → texts_of to_tm m' next ≡ texts_of to_tm m' fs

  pub AllWritten-format_sequence :
      (m : LogMessage) (fs : List FlagFormatter)
      → IsLogged m
      → Every (IsReady to_tm) fs
      → AllWritten m fs
  unfolding format_sequence texts_of
  AllWritten-format_sequence m [] l r = record {
    next = [];
    writes = refl;
    ready = tt;
    same = λ m'. refl;
  }
  AllWritten-format_sequence m (f ∷ fs) l r =
      let w = Written-format_flag m f l r.0 in
      let ws = AllWritten-format_sequence m fs l r.1 in
      record {
        next = w.next ∷ ws.next;
        writes = λ i. format_then (w.writes i) (ws.writes i);
        ready = (w.ready, ws.ready);
        same = λ m' i. w.same m' i ++ ws.same m' i;
      }

  meaning_of_compiled :
      (flags : FlagMap) (m : LogMessage) {fs : List FlagFormatter} {s : Option (List ℕ)}
      → AgreesFrom to_tm m [] (some fs) s
      → (s ≡ some (texts_of to_tm m fs)) × Every (IsReady to_tm) fs
  meaning_of_compiled flags m (means e r) = (ap some (sym e), r)

  module _ (flags : FlagMap) (pattern : List ℕ) where
    format_all_of_meaning :
        (fs : List FlagFormatter) (ms : List LogMessage)
        → Every IsLogged ms
        → Every (IsReady to_tm) fs
        → ((m : LogMessage) → meaning to_tm flags m pattern ≡ some (texts_of to_tm m fs))
        → format_all to_tm fs ms ≡ meanings to_tm flags pattern ms
    unfolding format_all meanings
    format_all_of_meaning fs [] l r h = refl
    format_all_of_meaning fs (m ∷ ms) l r h =
        let w = AllWritten-format_sequence m fs l.0 r in
        ap (lines_then (λ gs. format_all to_tm gs ms)) w.writes
        ∙ ap (line_then (texts_of to_tm m fs))
            (format_all_of_meaning w.next ms l.1 w.ready (λ m'. h m' ∙ ap some (sym (w.same m'))))
        ∙ ap (λ o. meaning_then o (meanings to_tm flags pattern ms)) (sym (h m))

pub sequence_of_some :
    (f : LogFormatter) (o : Option (List FlagFormatter)) {g : LogFormatter}
    → with_sequence f o ≡ some g
    → o ≡ some g.sequence
sequence_of_some f none e = cc
sequence_of_some f (some s) e = ground arith

module _ (to_tm : ℕ → Tm) (ex : TimeExploded) (pattern : List ℕ) (flags : FlagMap) where
  agrees :
      (m : LogMessage)
      → AgreesFrom to_tm m [] (compile_loop ex flags pattern [] []) (meaning to_tm flags m pattern)
  unfolding texts_of
  agrees m = AgreesFrom-compile_loop to_tm m ex flags pattern [] [] tt

  pub meaning_of_sequence :
      (fs : List FlagFormatter) (m : LogMessage)
      → compile_loop ex flags pattern [] [] ≡ some fs
      → (meaning to_tm flags m pattern ≡ some (texts_of to_tm m fs)) × Every (IsReady to_tm) fs
  meaning_of_sequence fs m e =
      meaning_of_compiled to_tm flags m
        (subst (λ o. AgreesFrom to_tm m [] o (meaning to_tm flags m pattern)) e (agrees m))

  lines_of_compiled :
      (fs : List FlagFormatter) (ms : List LogMessage)
      → compile_loop ex flags pattern [] [] ≡ some fs
      → Every IsLogged ms
      → format_all to_tm fs ms ≡ meanings to_tm flags pattern ms
  unfolding format_all meanings
  lines_of_compiled fs [] e l = refl
  lines_of_compiled fs (m ∷ ms) e l =
      format_all_of_meaning to_tm flags pattern fs (m ∷ ms) l (meaning_of_sequence fs m e).1
        (λ m'. (meaning_of_sequence fs m' e).0)

  -- A formatter that was made of a pattern writes for each record what the pattern means, however
  -- many records it has formatted before, for records with a level below OFF that are later than the
  -- first second of the epoch.
  pub new_formatter-meanings :
      (f : LogFormatter) (ms : List LogMessage)
      → new_formatter ex pattern flags ≡ some f
      → Every IsLogged ms
      → format_all to_tm f.sequence ms ≡ meanings to_tm flags pattern ms
  unfolding new_formatter
  new_formatter-meanings f ms e l =
      lines_of_compiled f.sequence ms
        (sequence_of_some (record { pattern = pattern; sequence = []; flag_map = flags })
          (compile_loop ex flags pattern [] []) e)
        l

  none_together :
      (m : LogMessage) {o : Option (List FlagFormatter)} {s : Option (List ℕ)} (f : LogFormatter)
      → AgreesFrom to_tm m [] o s
      → (with_sequence f o ≡ none) ↔ (s ≡ none)
  none_together m f no_meaning = (λ _. refl, λ _. refl)
  none_together m f (means e r) = (λ h. cc, λ h. cc)
