-- ===== src/Log/Formatter/Meaning.antt =====
-- What a pattern means: an independent description, and that the compiled sequence writes it.
use libcold.Base.{
  ℕ, ◌/◌, ◌≡◌, ◌≢◌, refl, sym, ap, subst, ◌∙◌, List, [], ◌∷◌, ◌++◌, append-nil, append_assoc, Bool,
  true, false, Option, none, some, ◌==◌, if◌then◌else◌, bytes_of, Every, Every-append,
}
use libcold.Http.Response.{decimal}
use libcold.Log.{LogLevel, trace, debug, info, warn, error, fatal, off, LogMessage}
use libcold.Log.LocalTime.{Tm, TimeExploded, time_text, IsCached, new_local_time-IsCached}
use libcold.Log.Formatter.{
  FlagFormatter, thread_id_formatter, thread_name_formatter, function_name_formatter,
  file_name_formatter, base_name_formatter, file_line_formatter, log_level_formatter,
  logger_name_formatter, log_line_formatter, new_line_formatter, pattern_text_formatter,
  local_time_formatter, custom_flag_formatter, handle_flag, FlagMap, custom_or, push_text,
  push_flag, compile_loop,
}

-- What each flag stands for; the time is worked out anew for each record.
abbrev pub level_name : LogLevel → List ℕ
level_name trace = bytes_of "TRACE"
level_name debug = bytes_of "DEBUG"
level_name info = bytes_of "INFO "
level_name warn = bytes_of "WARN "
level_name error = bytes_of "ERROR"
level_name fatal = bytes_of "FATAL"
level_name off = []

abbrev pub flag_table : (ℕ → Tm) → LogMessage → List (ℕ × List ℕ)
flag_table to_tm m =
    (b't', m.thread_id)
    ∷ (b'N', m.thread_name)
    ∷ (b'f', m.location.function_name)
    ∷ (b'F', m.location.file_name)
    ∷ (b'l', decimal m.location.line)
    ∷ (b'L', level_name m.level)
    ∷ (b'n', bytes_of "\n")
    ∷ (b'T', time_text to_tm m.log_time)
    ∷ (b'c', m.log_line)
    ∷ (b'm', m.logger_name)
    ∷ (b'b', m.base_name)
    ∷ []

abbrev pub in_table : ℕ → List (ℕ × List ℕ) → Option (List ℕ)
in_table c [] = none
in_table c ((k, v) ∷ rest) = if c == k then some v else in_table c rest

abbrev pub custom_text :
    LogMessage → Option (List ℕ) → Option (LogMessage → List ℕ) → Option (List ℕ)
custom_text m default none = default
custom_text m default (some f) = some (f m)

abbrev pub flag_text : (ℕ → Tm) → FlagMap → LogMessage → ℕ → Option (List ℕ)
flag_text to_tm flags m c = custom_text m (in_table c (flag_table to_tm m)) (flags c)

abbrev pub before : List ℕ → Option (List ℕ) → Option (List ℕ)
before s none = none
before s (some t) = some (s ++ t)

abbrev pub both : Option (List ℕ) → Option (List ℕ) → Option (List ℕ)
both none t = none
both (some s) t = before s t

-- What a pattern makes of a record; none for a pattern that has no meaning.
unfoldable pub meaning : (ℕ → Tm) → FlagMap → LogMessage → List ℕ → Option (List ℕ)
meaning to_tm flags m [] = some []
meaning to_tm flags m (p ∷ []) = if p == b'%' then none else some (p ∷ [])
meaning to_tm flags m (p ∷ c ∷ rest) =
    let plain = before (p ∷ []) (meaning to_tm flags m (c ∷ rest)) in
    let percent = before (c ∷ []) (meaning to_tm flags m rest) in
    let flag = both (flag_text to_tm flags m c) (meaning to_tm flags m rest) in
    if p == b'%' then if c == b'%' then percent else flag else plain

-- A formatter whose cache, if it has one, holds what it should.
abbrev pub IsReady : (ℕ → Tm) → FlagFormatter → Type 0
IsReady to_tm (local_time_formatter f) = IsCached to_tm f
IsReady to_tm thread_id_formatter = Unit
IsReady to_tm _ = Unit

-- A record that a logger hands to its sinks, later than the first second of the epoch.
pub record IsLogged (m : LogMessage) : Type 0 where
  pub level : m.level ≢ off
  pub later : m.log_time / 1000 ≢ 0

abbrev pub text_of : (ℕ → Tm) → LogMessage → FlagFormatter → List ℕ
text_of to_tm m thread_id_formatter = m.thread_id
text_of to_tm m thread_name_formatter = m.thread_name
text_of to_tm m function_name_formatter = m.location.function_name
text_of to_tm m file_name_formatter = m.location.file_name
text_of to_tm m base_name_formatter = m.base_name
text_of to_tm m file_line_formatter = decimal m.location.line
text_of to_tm m log_level_formatter = level_name m.level
text_of to_tm m logger_name_formatter = m.logger_name
text_of to_tm m log_line_formatter = m.log_line
text_of to_tm m new_line_formatter = bytes_of "\n"
text_of to_tm m (pattern_text_formatter text) = text
text_of to_tm m (local_time_formatter f) = time_text to_tm m.log_time
text_of to_tm m (custom_flag_formatter f) = f m

unfoldable pub texts_of : (ℕ → Tm) → LogMessage → List FlagFormatter → List ℕ
texts_of to_tm m [] = []
texts_of to_tm m (f ∷ fs) = text_of to_tm m f ++ texts_of to_tm m fs

module _ (to_tm : ℕ → Tm) (m : LogMessage) where
  texts_of-append :
      (fs gs : List FlagFormatter)
      → texts_of to_tm m (fs ++ gs) ≡ texts_of to_tm m fs ++ texts_of to_tm m gs
  unfolding texts_of
  texts_of-append [] gs = refl
  texts_of-append (f ∷ fs) gs =
      ap (λ s. text_of to_tm m f ++ s) (texts_of-append fs gs)
      ∙ sym (append_assoc (text_of to_tm m f) (texts_of to_tm m fs) (texts_of to_tm m gs))

  -- A formatter that was found means what the table says.
  pub data Agrees : Option FlagFormatter → Option (List ℕ) → Type 0 where
    neither : Agrees none none
    agree :
        {f : FlagFormatter} {s : List ℕ}
        → text_of to_tm m f ≡ s
        → IsReady to_tm f
        → Agrees (some f) (some s)

  Agrees-if :
      (b : Bool) {o p : Option FlagFormatter} {s t : Option (List ℕ)}
      → Agrees o s
      → Agrees p t
      → Agrees (if b then o else p) (if b then s else t)
  Agrees-if true x y = x
  Agrees-if false x y = y

  Agrees-handle_flag :
      (ex : TimeExploded) (c : ℕ) → Agrees (handle_flag ex c) (in_table c (flag_table to_tm m))
  unfolding handle_flag
  Agrees-handle_flag ex c = Agrees-if (c == b't') (agree refl tt) (
      Agrees-if (c == b'N') (agree refl tt) (
        Agrees-if (c == b'f') (agree refl tt) (
          Agrees-if (c == b'F') (agree refl tt) (
            Agrees-if (c == b'l') (agree refl tt) (
              Agrees-if (c == b'L') (agree refl tt) (
                Agrees-if (c == b'n') (agree refl tt) (
                  Agrees-if (c == b'T') (agree refl (new_local_time-IsCached to_tm ex)) (
                    Agrees-if (c == b'c') (agree refl tt) (
                      Agrees-if (c == b'm') (agree refl tt)
                        (Agrees-if (c == b'b') (agree refl tt) neither))))))))))

  Agrees-custom :
      (o : Option FlagFormatter) (s : Option (List ℕ)) (f : Option (LogMessage → List ℕ))
      → Agrees o s
      → Agrees (custom_or o f) (custom_text m s f)
  Agrees-custom o s none h = h
  Agrees-custom o s (some f) h = agree refl tt

  -- A compiled rest of a pattern means `prefix` and then what the rest means.
  pub data AgreesFrom (prefix : List ℕ)
      : Option (List FlagFormatter) → Option (List ℕ) → Type 0 where
    no_meaning : AgreesFrom prefix none none
    means :
        {fs : List FlagFormatter} {s : List ℕ}
        → texts_of to_tm m fs ≡ prefix ++ s
        → Every (IsReady to_tm) fs
        → AgreesFrom prefix (some fs) (some s)

  AgreesFrom-before :
      (prefix s : List ℕ) {o : Option (List FlagFormatter)} {t : Option (List ℕ)}
      → AgreesFrom (prefix ++ s) o t
      → AgreesFrom prefix o (before s t)
  AgreesFrom-before prefix s no_meaning = no_meaning
  AgreesFrom-before prefix s (means {s = t} e h) = means (e ∙ append_assoc prefix s t) h

  AgreesFrom-push :
      (done text : List ℕ) (c : ℕ) {o : Option (List FlagFormatter)} {t : Option (List ℕ)}
      → AgreesFrom (done ++ (text ++ c ∷ [])) o t
      → AgreesFrom (done ++ text) o (before (c ∷ []) t)
  AgreesFrom-push done text c {o} {t} a =
      AgreesFrom-before (done ++ text) (c ∷ [])
        (subst (λ s. AgreesFrom s o t) (sym (append_assoc done text (c ∷ []))) a)

  AgreesFrom-if :
      (b : Bool) (prefix : List ℕ) {o p : Option (List FlagFormatter)} {s t : Option (List ℕ)}
      → AgreesFrom prefix o s
      → AgreesFrom prefix p t
      → AgreesFrom prefix (if b then o else p) (if b then s else t)
  AgreesFrom-if true prefix x y = x
  AgreesFrom-if false prefix x y = y

  push_text_lem :
      (text : List ℕ) (sequence : List FlagFormatter)
      → Every (IsReady to_tm) sequence
      → (texts_of to_tm m (push_text text sequence) ≡ texts_of to_tm m sequence ++ text)
        × Every (IsReady to_tm) (push_text text sequence)
  unfolding texts_of
  push_text_lem [] sequence h = (sym (append-nil (texts_of to_tm m sequence)), h)
  push_text_lem (c ∷ text) sequence h = (
    texts_of-append sequence (pattern_text_formatter (c ∷ text) ∷ [])
        ∙ ap (λ s. texts_of to_tm m sequence ++ s) (append-nil (c ∷ text)),
    Every-append (IsReady to_tm) sequence (pattern_text_formatter (c ∷ text) ∷ []) h (tt, tt),
  )

  -- A flag is pushed, and the rest of the pattern follows.
  AgreesFrom-flag :
      (next : List FlagFormatter → Option (List FlagFormatter)) (sequence : List FlagFormatter)
      (prefix : List ℕ) (rest : Option (List ℕ)) {o : Option FlagFormatter} {s : Option (List ℕ)}
      → ((fs : List FlagFormatter)
          → Every (IsReady to_tm) fs
          → AgreesFrom (texts_of to_tm m fs) (next fs) rest)
      → texts_of to_tm m sequence ≡ prefix
      → Every (IsReady to_tm) sequence
      → Agrees o s
      → AgreesFrom prefix (push_flag next sequence o) (both s rest)
  unfolding texts_of
  AgreesFrom-flag next sequence prefix rest ih e h neither = no_meaning
  AgreesFrom-flag next sequence prefix rest ih e h (agree {f} {s} t r) =
      AgreesFrom-before prefix s (
        subst (λ u. AgreesFrom u (next (sequence ++ f ∷ [])) rest)
          (texts_of-append sequence (f ∷ [])
            ∙ ap (λ u. texts_of to_tm m sequence ++ u) (append-nil (text_of to_tm m f))
            ∙ ap (λ u. u ++ text_of to_tm m f) e
            ∙ ap (λ u. prefix ++ u) t)
          (ih (sequence ++ f ∷ []) (Every-append (IsReady to_tm) sequence (f ∷ []) h (r, tt))))

  module _ (ex : TimeExploded) (flags : FlagMap) where
    AgreesFrom-end :
        (text : List ℕ) (sequence : List FlagFormatter)
        → Every (IsReady to_tm) sequence
        → AgreesFrom (texts_of to_tm m sequence ++ text) (some (push_text text sequence)) (some [])
    AgreesFrom-end text sequence h =
        let p = push_text_lem text sequence h in
        means (p.0 ∙ sym (append-nil (texts_of to_tm m sequence ++ text))) p.1

    pub AgreesFrom-compile_loop :
        (pattern text : List ℕ) (sequence : List FlagFormatter)
        → Every (IsReady to_tm) sequence
        → AgreesFrom
            (texts_of to_tm m sequence ++ text)
            (compile_loop ex flags pattern text sequence)
            (meaning to_tm flags m pattern)
    unfolding compile_loop meaning
    AgreesFrom-compile_loop [] text sequence h = AgreesFrom-end text sequence h
    AgreesFrom-compile_loop (p ∷ []) text sequence h =
        AgreesFrom-if (p == b'%') (texts_of to_tm m sequence ++ text) no_meaning (
          AgreesFrom-push (texts_of to_tm m sequence) text p
            (AgreesFrom-end (text ++ p ∷ []) sequence h))
    AgreesFrom-compile_loop (p ∷ c ∷ rest) text sequence h =
        let done = texts_of to_tm m sequence in
        let pushed = push_text_lem text sequence h in
        AgreesFrom-if (p == b'%') (done ++ text)
          (AgreesFrom-if (c == b'%') (done ++ text)
            (AgreesFrom-push done text c (AgreesFrom-compile_loop rest (text ++ c ∷ []) sequence h))
            (AgreesFrom-flag (λ s. compile_loop ex flags rest [] s) (push_text text sequence)
              (done ++ text) (meaning to_tm flags m rest)
              (λ fs h'.
                subst
                  (λ s.
                    AgreesFrom s (compile_loop ex flags rest [] fs) (meaning to_tm flags m rest))
                  (append-nil (texts_of to_tm m fs)) (AgreesFrom-compile_loop rest [] fs h'))
              pushed.0 pushed.1
              (Agrees-custom (handle_flag ex c) (in_table c (flag_table to_tm m)) (flags c)
                (Agrees-handle_flag ex c))))
          (AgreesFrom-push done text p
            (AgreesFrom-compile_loop (c ∷ rest) (text ++ p ∷ []) sequence h))
