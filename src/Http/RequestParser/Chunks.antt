-- ===== src/Http/RequestParser/Chunks.antt =====
-- The callbacks for one part of a message, however llhttp cuts the part into chunks.
use libcold.Base.{
  ℕ, ◌+◌, ◌≤◌, ◌≡◌, refl, sym, ap, ◌∙◌, List, [], ◌∷◌, ◌++◌, append_assoc, append-nil, map, Bool,
  true, false, ◌||◌, ltb, if◌then◌else◌, Option, none, some, Bool-cases, inl, inr, arith, length,
  length-append,
}
use libcold.Http.RequestParser.{
  Limits, Event, on_url, on_version, on_header_field, on_header_value, on_body, HttpRequestParser,
  callback, execute, and_then, content_length_fits,
}

abbrev pub concat : List (List ℕ) → List ℕ
concat [] = []
concat (c ∷ cs) = c ++ concat cs

ltb-false : (a b : ℕ) → ltb a b ≡ false → b ≤ a
ltb-false a b h = ground arith

abbrev pub run :
    (List ℕ → HttpRequestParser → Option HttpRequestParser)
    → List (List ℕ)
    → HttpRequestParser
    → Option HttpRequestParser
run step [] p = some p
run step (c ∷ cs) p = and_then (step c p) (λ q. run step cs q)

and_then_assoc :
    {A : Type 0} (o : Option A) (f g : A → Option A)
    → and_then (and_then o f) g ≡ and_then o (λ a. and_then (f a) g)
and_then_assoc none f g = refl
and_then_assoc (some a) f g = refl

and_then_ext :
    {A : Type 0} (o : Option A) (f g : A → Option A)
    → ((a : A) → f a ≡ g a)
    → and_then o f ≡ and_then o g
and_then_ext none f g e = refl
and_then_ext (some a) f g e = e a

-- A part that is put behind what there is, up to a limit.
module _ (max : ℕ) (step : List ℕ → HttpRequestParser → Option HttpRequestParser)
    (put : HttpRequestParser → List ℕ → HttpRequestParser) (size : HttpRequestParser → ℕ)
    (over : HttpRequestParser → Bool)
    (step-if : (c : List ℕ) (p : HttpRequestParser)
      → step c p ≡ (if over p || ltb max (size p + length c) then none else some (put p c)))
    (size-put : (p : HttpRequestParser) (c : List ℕ) → size (put p c) ≡ size p + length c)
    (over-put : (p : HttpRequestParser) (c : List ℕ) → over (put p c) ≡ over p)
    (put-nil : (p : HttpRequestParser) → put p [] ≡ p)
    (put-put : (p : HttpRequestParser) (c d : List ℕ) → put (put p c) d ≡ put p (c ++ d)) where
  step-fails :
      (c : List ℕ) (p : HttpRequestParser)
      → (over p || ltb max (size p + length c)) ≡ true
      → step c p ≡ none
  step-fails c p e = step-if c p ∙ rw e

  step-puts :
      (c : List ℕ) (p : HttpRequestParser)
      → (over p || ltb max (size p + length c)) ≡ false
      → step c p ≡ some (put p c)
  step-puts c p e = step-if c p ∙ rw e

  pub run-chunks :
      (cs : List (List ℕ)) (p : HttpRequestParser)
      → over p ≡ false
      → size p ≤ max
      → run step cs p
        ≡ (if ltb max (size p + length (concat cs)) then none else some (put p (concat cs)))
  run-chunks [] p o h = ground (arith, put-nil p)
  run-chunks (c ∷ cs) p o h = elim (Bool-cases (ltb max (size p + length c))) [
    | inl e ↦
        ap (λ r. and_then r (λ q. run step cs q)) (step-fails c p (ground (arith, o, e)))
        ∙ ground (arith, length-append c (concat cs))
    | inr e ↦
        ap (λ r. and_then r (λ q. run step cs q)) (step-puts c p (ground (arith, o, e)))
        ∙ run-chunks cs (put p c) (over-put p c ∙ o)
            (omega (arith, size-put p c, ltb-false max (size p + length c) e))
        ∙ rw (size-put p c, put-put p c (concat cs), length-append c (concat cs)) (ground arith)
  ]

  pub run-over :
      (c : List ℕ) (cs : List (List ℕ)) (p : HttpRequestParser)
      → over p ≡ true
      → run step (c ∷ cs) p ≡ none
  run-over c cs p o = ap (λ r. and_then r (λ q. run step cs q)) (step-fails c p (ground (arith, o)))

module _ (limits : Limits) where
  pub execute-append :
      (es fs : List Event) (p : HttpRequestParser)
      → execute limits (es ++ fs) p ≡ and_then (execute limits es p) (λ q. execute limits fs q)
  unfolding execute
  execute-append [] fs p = refl
  execute-append (e ∷ es) fs p =
      and_then_ext (callback limits e p) _ _ (λ q. execute-append es fs q)
      ∙ sym (
          and_then_assoc (callback limits e p) (λ q. execute limits es q)
            (λ q. execute limits fs q))

  pub execute-map :
      (event : List ℕ → Event) (cs : List (List ℕ)) (p : HttpRequestParser)
      → execute limits (map event cs) p ≡ run (λ c q. callback limits (event c) q) cs p
  unfolding execute
  execute-map event [] p = refl
  execute-map event (c ∷ cs) p =
      and_then_ext (callback limits (event c) p) _ _ (λ q. execute-map event cs q)

  abbrev with_buf : HttpRequestParser → List ℕ → HttpRequestParser
  with_buf p s = record p { buf = p.buf ++ s }

  pub execute-on_url :
      (cs : List (List ℕ)) (p : HttpRequestParser)
      → p.buf ≡ []
      → execute limits (map on_url cs) p ≡ (
          if ltb limits.max_url_size (length (concat cs))
          then none
          else some (record p { buf = concat cs }))
  unfolding callback
  execute-on_url cs p h =
      execute-map on_url cs p
      ∙ run-chunks limits.max_url_size (λ c q. callback limits (on_url c) q) with_buf
          (λ q. length q.buf) (λ q. false) (λ c q. refl) (λ q c. length-append q.buf c)
          (λ q c. refl) (λ q. ap (λ s. record q { buf = s }) (append-nil q.buf))
          (λ q c d. ap (λ s. record q { buf = s }) (append_assoc q.buf c d)) cs p refl
          (ground (arith, h))
      ∙ rw h (ground arith)

  abbrev too_many : HttpRequestParser → Bool
  too_many p = ltb limits.max_header_count (length p.cur_request.headers + 1)

  pub execute-on_header_field :
      (c : List ℕ) (cs : List (List ℕ)) (p : HttpRequestParser)
      → p.buf ≡ []
      → execute limits (map on_header_field (c ∷ cs)) p ≡ (
          if ltb limits.max_header_count (length p.cur_request.headers + 1)
            || ltb limits.max_header_field_size (length (c ++ concat cs))
          then none
          else some (record p { buf = c ++ concat cs }))
  unfolding callback
  execute-on_header_field c cs p h =
      execute-map on_header_field (c ∷ cs) p ∙ elim (Bool-cases (too_many p)) [
        | inl e ↦
            run-over limits.max_header_field_size (λ c q. callback limits (on_header_field c) q)
              with_buf (λ q. length q.buf) too_many (λ c q. refl) (λ q c. length-append q.buf c)
              (λ q c. refl) (λ q. ap (λ s. record q { buf = s }) (append-nil q.buf))
              (λ q c d. ap (λ s. record q { buf = s }) (append_assoc q.buf c d)) c cs p e
            ∙ rw e
        | inr e ↦
            run-chunks limits.max_header_field_size (λ c q. callback limits (on_header_field c) q)
              with_buf (λ q. length q.buf) too_many (λ c q. refl) (λ q c. length-append q.buf c)
              (λ q c. refl) (λ q. ap (λ s. record q { buf = s }) (append-nil q.buf))
              (λ q c d. ap (λ s. record q { buf = s }) (append_assoc q.buf c d)) (c ∷ cs) p e
              (ground (arith, h))
            ∙ rw (e, h) (ground arith)
      ]

  abbrev with_value : HttpRequestParser → List ℕ → HttpRequestParser
  with_value p s = record p { buf_for_header_value = p.buf_for_header_value ++ s }

  pub execute-on_header_value :
      (cs : List (List ℕ)) (p : HttpRequestParser)
      → p.buf_for_header_value ≡ []
      → execute limits (map on_header_value cs) p ≡ (
          if ltb limits.max_header_value_size (length (concat cs))
          then none
          else some (record p { buf_for_header_value = concat cs }))
  unfolding callback
  execute-on_header_value cs p h =
      execute-map on_header_value cs p
      ∙ run-chunks limits.max_header_value_size (λ c q. callback limits (on_header_value c) q)
          with_value (λ q. length q.buf_for_header_value) (λ q. false) (λ c q. refl)
          (λ q c. length-append q.buf_for_header_value c) (λ q c. refl)
          (λ q. ap (λ s. record q { buf_for_header_value = s }) (append-nil q.buf_for_header_value))
          (λ q c d.
            ap (λ s. record q { buf_for_header_value = s })
              (append_assoc q.buf_for_header_value c d))
          cs p refl (ground (arith, h))
      ∙ rw h (ground arith)

  pub execute-on_version :
      (cs : List (List ℕ)) (p : HttpRequestParser)
      → execute limits (map on_version cs) p ≡ some (record p { buf = p.buf ++ concat cs })
  unfolding execute callback
  execute-on_version [] p = ap (λ s. some (record p { buf = s })) (sym (append-nil p.buf))
  execute-on_version (c ∷ cs) p =
      execute-on_version cs (with_buf p c)
      ∙ ap (λ s. some (record p { buf = s })) (append_assoc p.buf c (concat cs))

  execute-unchecked :
      (cs : List (List ℕ)) (p : HttpRequestParser)
      → p.check_content_length ≡ false
      → execute limits (map on_body cs) p ≡ some (record p { buf = p.buf ++ concat cs })
  unfolding execute callback
  execute-unchecked [] p h = ap (λ s. some (record p { buf = s })) (sym (append-nil p.buf))
  execute-unchecked (c ∷ cs) p h = rw h (
      execute-unchecked cs (record p { check_content_length = false; buf = p.buf ++ c }) refl
      ∙ ap (λ s. some (record p { check_content_length = false; buf = s }))
          (append_assoc p.buf c (concat cs)))

  pub execute-on_body :
      (c : List ℕ) (cs : List (List ℕ)) (p : HttpRequestParser)
      → p.check_content_length ≡ true
      → p.buf ≡ []
      → execute limits (map on_body (c ∷ cs)) p ≡ (
          if content_length_fits limits p.cur_request
          then some (record p { check_content_length = false; buf = c ++ concat cs })
          else none)
  unfolding execute callback
  execute-on_body c cs p h b = elim (Bool-cases (content_length_fits limits p.cur_request)) [
    | inl e ↦
        rw (h, e)
          (execute-unchecked cs (record p { check_content_length = false; buf = p.buf ++ c }) refl
            ∙ rw b)
    | inr e ↦ rw (h, e)
  ]
