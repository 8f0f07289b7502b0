-- ===== src/Log/LocalTime.antt =====
-- LocalTimeFormatter of cold/log/LogFormatter.cpp, which keeps the text of the last second, and
-- Time::Exploded of cold/time/Time.cpp. localtime_r is a parameter: a function from the seconds since
-- the epoch to the fields of `struct tm`, which are not negative.
use libcold.Base.{
  ℕ, ◌+◌, ◌-◌, ◌*◌, ◌/◌, ◌%◌, ◌≡◌, refl, sym, ap, subst, ◌∙◌, List, [], ◌∷◌, ◌++◌, inl, inr, ◌⊎◌,
  ◌≢◌, get_or, arith, ◌==◌, if◌then◌else◌, ==_iff, length, take, drop, bytes_of, Bool-cases,
}

pub record Tm : Type 0 where
  pub tm_year : ℕ
  pub tm_mon : ℕ
  pub tm_mday : ℕ
  pub tm_hour : ℕ
  pub tm_min : ℕ
  pub tm_sec : ℕ
  pub tm_wday : ℕ
  pub tm_yday : ℕ

pub record TimeExploded : Type 0 where
  pub year : ℕ
  pub month : ℕ
  pub day : ℕ
  pub day_of_week : ℕ
  pub day_in_year : ℕ
  pub hour : ℕ
  pub minute : ℕ
  pub second : ℕ
  pub millisecond : ℕ

-- Time::Exploded, at the milliseconds since the epoch.
abbrev pub exploded : (ℕ → Tm) → ℕ → TimeExploded
exploded to_tm milliseconds =
    let t = to_tm (milliseconds / 1000) in
    record {
      year = t.tm_year + 1900;
      month = t.tm_mon + 1;
      day = t.tm_mday;
      day_of_week = if t.tm_wday == 0 then 7 else t.tm_wday;
      day_in_year = t.tm_yday + 1;
      hour = t.tm_hour;
      minute = t.tm_min;
      second = t.tm_sec;
      millisecond = milliseconds % 1000;
    }

-- A number as a `char`.
abbrev pub digit_char : ℕ → ℕ
digit_char n = (n + b'0') % 256

abbrev pub pad2 : ℕ → List ℕ
pad2 v = digit_char (v / 10) ∷ digit_char (v % 10) ∷ []

abbrev pub pad3 : ℕ → List ℕ
pad3 v = digit_char (v / 100) ∷ digit_char (v / 10 % 10) ∷ digit_char (v % 10) ∷ []

abbrev pub pad4 : ℕ → List ℕ
pad4 v = digit_char (v / 1000) ∷ pad3 (v % 1000)

-- The bytes `s` at the place `i` of the buffer.
abbrev pub write_at : ℕ → List ℕ → List ℕ → List ℕ
write_at i s buf = take i buf ++ (s ++ drop (i + length s) buf)

pub record LocalTimeFormatter : Type 0 where
  pub last_format_second : ℕ
  pub cached_time_exploded : TimeExploded
  pub time_buf : List ℕ

-- cachedTimeExploded_ has no initial value: it is written before it is read.
abbrev pub new_local_time : TimeExploded → LocalTimeFormatter
new_local_time ex = record {
  last_format_second = 0;
  cached_time_exploded = ex;
  time_buf = bytes_of "xxxx-xx-xx oo:oo:oo.ooo";
}

abbrev pub write_second : TimeExploded → List ℕ → List ℕ
write_second ex buf = write_at 17 (pad2 ex.second) (
    write_at 14 (pad2 ex.minute) (
      write_at 11 (pad2 ex.hour)
        (write_at 8 (pad2 ex.day) (write_at 5 (pad2 ex.month) (write_at 0 (pad4 ex.year) buf)))))

-- The text of a second that is not the last one is written anew.
unfoldable pub update_second : (ℕ → Tm) → ℕ → LocalTimeFormatter → LocalTimeFormatter
update_second to_tm log_time f =
    let ex = exploded to_tm log_time in
    if log_time / 1000 == f.last_format_second then f else record {
      last_format_second = log_time / 1000;
      cached_time_exploded = ex;
      time_buf = write_second ex f.time_buf;
    }

-- LocalTimeFormatter::Format: the formatter with its cache, and the bytes that it appends.
unfoldable pub format_time : (ℕ → Tm) → ℕ → LocalTimeFormatter → LocalTimeFormatter × List ℕ
format_time to_tm log_time f =
    let g = update_second to_tm log_time f in
    let buf = write_at 20 (pad3 (log_time - log_time / 1000 * 1000)) g.time_buf in
    (record g { time_buf = buf }, take 23 buf)

-- The text of a time, with nothing kept.
abbrev pub second_text : TimeExploded → List ℕ
second_text ex =
    pad4 ex.year
    ++ (bytes_of "-"
        ++ (pad2 ex.month
            ++ (bytes_of "-"
                ++ (pad2 ex.day
                    ++ (bytes_of " "
                        ++ (pad2 ex.hour
                            ++ (bytes_of ":"
                                ++ (pad2 ex.minute ++ (bytes_of ":" ++ pad2 ex.second)))))))))

abbrev pub time_text : (ℕ → Tm) → ℕ → List ℕ
time_text to_tm log_time =
    let ex = exploded to_tm log_time in second_text ex ++ (bytes_of "." ++ pad3 ex.millisecond)

-- A buffer with the marks between the numbers in their places, and the digits `d`.
abbrev framed : (ℕ → ℕ) → List ℕ
framed d =
    d 0
    ∷ d 1
    ∷ d 2
    ∷ d 3
    ∷ b'-'
    ∷ d 4
    ∷ d 5
    ∷ b'-'
    ∷ d 6
    ∷ d 7
    ∷ b' '
    ∷ d 8
    ∷ d 9
    ∷ b':'
    ∷ d 10
    ∷ d 11
    ∷ b':'
    ∷ d 12
    ∷ d 13
    ∷ b'.'
    ∷ d 14
    ∷ d 15
    ∷ d 16
    ∷ []

abbrev digits_of_second : TimeExploded → List ℕ → ℕ → ℕ
digits_of_second ex rest i =
    get_or
      (pad4 ex.year
        ++ (pad2 ex.month
            ++ (pad2 ex.day ++ (pad2 ex.hour ++ (pad2 ex.minute ++ (pad2 ex.second ++ rest))))))
      i 0

-- The text of the second is there, unless no second has been written.
abbrev TextKept : (ℕ → Tm) → LocalTimeFormatter → Type 0
TextKept to_tm f =
    (f.last_format_second ≡ 0)
    ⊎ (take 19 f.time_buf ≡ second_text (exploded to_tm (f.last_format_second * 1000)))

-- What the cache holds between two records.
pub record IsCached (to_tm : ℕ → Tm) (f : LocalTimeFormatter) : Type 0 where
  pub digits : ℕ → ℕ
  pub marks : f.time_buf ≡ framed digits
  pub kept : TextKept to_tm f

seconds_whole : (s : ℕ) → s * 1000 / 1000 ≡ s
seconds_whole s = omega arith

module _ (to_tm : ℕ → Tm) (t : ℕ) (f : LocalTimeFormatter) where
  -- After the update the buffer shows the second of the time.
  record Shows (g : LocalTimeFormatter) : Type 0 where
    digits : ℕ → ℕ
    marks : g.time_buf ≡ framed digits
    last : g.last_format_second ≡ t / 1000
    text : take 19 (framed digits) ≡ second_text (exploded to_tm t)

  second_kept :
      (last : ℕ) (buf : List ℕ)
      → t / 1000 ≢ 0
      → t / 1000 ≡ last
      → (last ≡ 0) ⊎ (take 19 buf ≡ second_text (exploded to_tm (last * 1000)))
      → take 19 buf ≡ second_text (exploded to_tm t)
  second_kept last buf pos e (inl z) = absurd (pos (e ∙ z))
  second_kept last buf pos e (inr k) =
      k ∙ ap (λ s. second_text (exploded (λ _. to_tm s) 0)) (seconds_whole last ∙ sym e)

  Shows-update_second : t / 1000 ≢ 0 → IsCached to_tm f → Shows (update_second to_tm t f)
  unfolding update_second
  Shows-update_second pos c = elim (Bool-cases (t / 1000 == f.last_format_second)) [
    | inl same ↦ rw same (record {
      digits = c.digits;
      marks = c.marks;
      last = sym ((==_iff (t / 1000) f.last_format_second).0 same);
      text =
          ap (take 19) (sym c.marks)
          ∙ second_kept f.last_format_second f.time_buf pos
              ((==_iff (t / 1000) f.last_format_second).0 same) c.kept;
    })
    | inr new ↦ rw new (record {
      digits = digits_of_second (exploded to_tm t) (c.digits 14 ∷ c.digits 15 ∷ c.digits 16 ∷ []);
      marks = ap (write_second (exploded to_tm t)) c.marks;
      last = refl;
      text = refl;
    })
  ]

module _ (to_tm : ℕ → Tm) (t : ℕ) where
  with_millisecond : (ℕ → ℕ) → ℕ → ℕ
  with_millisecond d i =
      get_or
        ((d 0
            ∷ d 1
            ∷ d 2
            ∷ d 3
            ∷ d 4
            ∷ d 5
            ∷ d 6
            ∷ d 7
            ∷ d 8
            ∷ d 9
            ∷ d 10
            ∷ d 11
            ∷ d 12
            ∷ d 13
            ∷ [])
          ++ pad3 (t - t / 1000 * 1000))
        i 0

  millisecond_left : t - t / 1000 * 1000 ≡ t % 1000
  millisecond_left = omega arith

  time_of_frame :
      (d : ℕ → ℕ) (buf : List ℕ)
      → buf ≡ framed d
      → take 19 (framed d) ≡ second_text (exploded to_tm t)
      → take 23 (write_at 20 (pad3 (t - t / 1000 * 1000)) buf) ≡ time_text to_tm t
  time_of_frame d buf e text =
      ap (λ b. take 23 (write_at 20 (pad3 (t - t / 1000 * 1000)) b)) e
      ∙ ap (λ s. s ++ (b'.' ∷ pad3 (t - t / 1000 * 1000))) text
      ∙ ap (λ n. second_text (exploded to_tm t) ++ (b'.' ∷ pad3 n)) millisecond_left

  kept_of_frame :
      (d : ℕ → ℕ) (buf : List ℕ)
      → buf ≡ framed d
      → take 19 (framed d) ≡ second_text (exploded to_tm t)
      → take 19 (write_at 20 (pad3 (t - t / 1000 * 1000)) buf)
        ≡ second_text (exploded to_tm (t / 1000 * 1000))
  kept_of_frame d buf e text =
      ap (λ b. take 19 (write_at 20 (pad3 (t - t / 1000 * 1000)) b)) e
      ∙ text
      ∙ ap (λ s. second_text (exploded (λ _. to_tm s) 0)) (sym (seconds_whole (t / 1000)))

  -- The cache does not show: at every time but in the first second of the epoch the bytes are the
  -- text of the time, as it is worked out with no cache, and the cache holds the text of a second
  -- again.
  pub format_time-time_text :
      (f : LocalTimeFormatter)
      → IsCached to_tm f
      → t / 1000 ≢ 0
      → ((format_time to_tm t f).1 ≡ time_text to_tm t) × IsCached to_tm (format_time to_tm t f).0
  unfolding format_time with_millisecond
  format_time-time_text f c pos =
      let s = Shows-update_second to_tm t f pos c in
      let g = update_second to_tm t f in
      (
        time_of_frame s.digits g.time_buf s.marks s.text,
        record {
          digits = with_millisecond s.digits;
          marks = ap (write_at 20 (pad3 (t - t / 1000 * 1000))) s.marks;
          kept = inr (
              subst
                (λ n.
                  take 19 (write_at 20 (pad3 (t - t / 1000 * 1000)) g.time_buf)
                  ≡ second_text (exploded to_tm (n * 1000)))
                (sym s.last) (kept_of_frame s.digits g.time_buf s.marks s.text));
        },
      )

-- A new formatter.
pub new_local_time-IsCached :
    (to_tm : ℕ → Tm) (ex : TimeExploded) → IsCached to_tm (new_local_time ex)
new_local_time-IsCached to_tm ex = record {
  digits = λ i. get_or (bytes_of "xxxxxxxxooooooooo") i 0;
  marks = refl;
  kept = inl refl;
}
