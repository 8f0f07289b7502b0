-- ===== src/Http/RequestParser/Queue.antt =====
-- The queue of the requests that wait: what a callback, and a read, does to it.
use libcold.Base.{
  ℕ, suc, ◌+◌, ◌≡◌, refl, ap, ◌∙◌, List, [], ◌∷◌, Bool, true, false, if◌then◌else◌, Option, none,
  some, length, length-append, arith,
}
use libcold.Http.Request.{RawHttpRequest}
use libcold.Http.RequestParser.{
  Limits, Event, HttpRequestParser, callback, execute, and_then, on_method, on_url, on_url_complete,
  on_version, on_version_complete, on_header_field, on_header_field_complete, on_header_value,
  on_header_value_complete, on_body, on_message_complete,
}
use libcold.Http.RequestParser.Message.{bind}

-- The messages that end in a read.
unfoldable pub completed : List Event → ℕ
completed [] = 0
completed (on_message_complete ∷ es) = suc (completed es)
completed (e ∷ es) = completed es

abbrev pub with_queue : HttpRequestParser → List RawHttpRequest → HttpRequestParser
with_queue p queue = record p { request_queue = queue }

abbrev pub behind : RawHttpRequest → HttpRequestParser → HttpRequestParser
behind r p = with_queue p (r ∷ p.request_queue)

-- A predicate of the parser, if there is one.
abbrev pub Whole : (HttpRequestParser → Type 0) → Option HttpRequestParser → Type 0
Whole P none = Unit
Whole P (some p) = P p

abbrev pub delayed : RawHttpRequest → Option HttpRequestParser → Option HttpRequestParser
delayed r o = bind o (λ p. some (behind r p))

delayed-if :
    (b : Bool) (r : RawHttpRequest) (p : HttpRequestParser)
    → (if b then none else some (behind r p)) ≡ delayed r (if b then none else some p)
delayed-if true r p = refl
delayed-if false r p = refl

delayed-and_then :
    (o : Option HttpRequestParser) (r : RawHttpRequest)
    (f : HttpRequestParser → Option HttpRequestParser)
    → ((p : HttpRequestParser) → f (behind r p) ≡ delayed r (f p))
    → and_then (delayed r o) f ≡ delayed r (and_then o f)
delayed-and_then none r f e = refl
delayed-and_then (some p) r f e = e p

Whole-if :
    (b : Bool) (p q : HttpRequestParser)
    → q.request_queue ≡ p.request_queue
    → Whole (λ l. length l.request_queue ≡ length p.request_queue + 0) (if b then none else some q)
Whole-if true p q h = tt
Whole-if false p q h = omega (arith, ap length h)

pub Whole-delayed :
    (P Q : HttpRequestParser → Type 0) (r : RawHttpRequest) (o : Option HttpRequestParser)
    → ((p : HttpRequestParser) → P p → Q (behind r p))
    → Whole P o
    → Whole Q (delayed r o)
Whole-delayed P Q r none f h = tt
Whole-delayed P Q r (some p) f h = f p h

Whole-map :
    (P Q : HttpRequestParser → Type 0) (o : Option HttpRequestParser)
    → ((p : HttpRequestParser) → P p → Q p)
    → Whole P o
    → Whole Q o
Whole-map P Q none f h = tt
Whole-map P Q (some p) f h = f p h

Whole-and_then :
    (P Q : HttpRequestParser → Type 0) (o : Option HttpRequestParser)
    (f : HttpRequestParser → Option HttpRequestParser)
    → ((p : HttpRequestParser) → P p → Whole Q (f p))
    → Whole P o
    → Whole Q (and_then o f)
Whole-and_then P Q none f g h = tt
Whole-and_then P Q (some p) f g h = g p h

module _ (limits : Limits) where
  -- A request that waits makes no difference to the callbacks.
  callback-behind :
      (e : Event) (r : RawHttpRequest) (p : HttpRequestParser)
      → callback limits e (behind r p) ≡ delayed r (callback limits e p)
  unfolding callback
  callback-behind (on_method name) r p = refl
  callback-behind (on_url at) r p = delayed-if _ r _
  callback-behind on_url_complete r p = delayed-if _ r _
  callback-behind (on_version at) r p = refl
  callback-behind on_version_complete r p = refl
  callback-behind (on_header_field at) r p = delayed-if _ r _
  callback-behind on_header_field_complete r p = refl
  callback-behind (on_header_value at) r p = delayed-if _ r _
  callback-behind on_header_value_complete r p = refl
  callback-behind (on_body at) r p = delayed-if _ r _
  callback-behind on_message_complete r p = refl

  pub execute-behind :
      (es : List Event) (r : RawHttpRequest) (p : HttpRequestParser)
      → execute limits es (behind r p) ≡ delayed r (execute limits es p)
  unfolding execute
  execute-behind [] r p = refl
  execute-behind (e ∷ es) r p =
      ap (λ o. and_then o (λ q. execute limits es q)) (callback-behind e r p)
      ∙ delayed-and_then (callback limits e p) r (λ q. execute limits es q)
          (λ q. execute-behind es r q)

  -- The queue grows by the messages that end.
  callback-completed :
      (e : Event) (p : HttpRequestParser)
      → Whole
          (λ q. length q.request_queue ≡ length p.request_queue + completed (e ∷ []))
          (callback limits e p)
  unfolding callback completed
  callback-completed (on_method name) p = omega arith
  callback-completed (on_url at) p = Whole-if _ p _ refl
  callback-completed on_url_complete p = Whole-if _ p _ refl
  callback-completed (on_version at) p = omega arith
  callback-completed on_version_complete p = omega arith
  callback-completed (on_header_field at) p = Whole-if _ p _ refl
  callback-completed on_header_field_complete p = omega arith
  callback-completed (on_header_value at) p = Whole-if _ p _ refl
  callback-completed on_header_value_complete p = omega arith
  callback-completed (on_body at) p = Whole-if _ p _ refl
  callback-completed on_message_complete p =
      omega (arith, length-append p.request_queue (record p.cur_request { body = p.buf } ∷ []))

  completed-cons :
      (e : Event) (es : List Event) → completed (e ∷ es) ≡ completed (e ∷ []) + completed es
  unfolding completed
  completed-cons on_message_complete es = omega arith
  completed-cons e es = omega arith

  pub execute-completed :
      (es : List Event) (p : HttpRequestParser)
      → Whole
          (λ q. length q.request_queue ≡ length p.request_queue + completed es)
          (execute limits es p)
  unfolding execute completed
  execute-completed [] p = omega arith
  execute-completed (e ∷ es) p =
      Whole-and_then (λ q. length q.request_queue ≡ length p.request_queue + completed (e ∷ [])) _
        (callback limits e p) (λ q. execute limits es q)
        (λ q h.
          Whole-map (λ l. length l.request_queue ≡ length q.request_queue + completed es)
            (λ l. length l.request_queue ≡ length p.request_queue + completed (e ∷ es))
            (execute limits es q) (λ l h'. omega (arith, h, h', completed-cons e es))
            (execute-completed es q))
        (callback-completed e p)
