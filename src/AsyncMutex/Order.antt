-- ===== src/AsyncMutex/Order.antt =====
-- The order in which coroutines get the lock, and that one at a time has it.
use libcold.Base.{
  subst, ℕ, ◌+◌, ◌≡◌, refl, sym, ap, ◌∙◌, List, [], ◌∷◌, ◌++◌, append_assoc, append-nil, Bool, true,
  false, Option, none, some, length, length-append, arith,
}
use libcold.AsyncMutex.{
  LockState, not_locked, locked, AsyncMutex, await_suspend, try_lock, reverse_onto, resume_head,
  unlock,
}

pub data Op : Type 0 where
  lock : ℕ → Op
  try : ℕ → Op
  release : Op

-- What happened so far: who asked for the lock, and who got it, in order, and how often it was let go.
pub record Trace : Type 0 where
  pub asked : List ℕ
  pub granted : List ℕ
  pub released : ℕ

abbrev pub ask : ℕ → Bool → Trace → Trace
ask t true h = record h { asked = h.asked ++ t ∷ []; granted = h.granted ++ t ∷ [] }
ask t false h = record h { asked = h.asked ++ t ∷ [] }

abbrev pub ask_once : ℕ → Bool → Trace → Trace
ask_once t true h = record h { asked = h.asked ++ t ∷ []; granted = h.granted ++ t ∷ [] }
ask_once t false h = h

abbrev pub let_go : Trace → Option (AsyncMutex × List ℕ) → Option (AsyncMutex × Trace)
let_go h none = none
let_go h (some (m, next)) =
    some (m, record h { granted = h.granted ++ next; released = h.released + 1 })

unfoldable pub step : Op → AsyncMutex → Trace → Option (AsyncMutex × Trace)
step (lock t) m h = let (m', got) = await_suspend t m in some (m', ask t got h)
step (try t) m h = let (m', got) = try_lock m in some (m', ask_once t got h)
step release m h = let_go h (unlock m)

abbrev pub and_run :
    (AsyncMutex → Trace → Option (AsyncMutex × Trace))
    → Option (AsyncMutex × Trace)
    → Option (AsyncMutex × Trace)
and_run next none = none
and_run next (some (m, h)) = next m h

unfoldable pub run : List Op → AsyncMutex → Trace → Option (AsyncMutex × Trace)
run [] m h = some (m, h)
run (op ∷ ops) m h = and_run (λ m' h'. run ops m' h') (step op m h)

abbrev pub stacked : LockState → List ℕ
stacked not_locked = []
stacked (locked waiters) = reverse_onto [] waiters

-- Those that wait, in the order in which they asked.
abbrev pub waiting : AsyncMutex → List ℕ
waiting m = m.waiters_head ++ stacked m.state

abbrev pub holders : LockState → ℕ
holders not_locked = 0
holders (locked waiters) = 1

abbrev NoWaiters : LockState → List ℕ → Type 0
NoWaiters not_locked heads = heads ≡ []
NoWaiters (locked waiters) heads = Unit

-- Who asked is who got the lock and then who waits; all who got it but the holder have let it go.
pub record IsFair (m : AsyncMutex) (h : Trace) : Type 0 where
  pub order : h.asked ≡ h.granted ++ waiting m
  pub one : length h.granted ≡ h.released + holders m.state
  pub free : NoWaiters m.state m.waiters_head

reverse_onto-append : (acc s : List ℕ) → reverse_onto acc s ≡ reverse_onto [] s ++ acc
unfolding reverse_onto
reverse_onto-append acc [] = refl
reverse_onto-append acc (c ∷ s) =
    reverse_onto-append (c ∷ acc) s
    ∙ sym (append_assoc (reverse_onto [] s) (c ∷ []) acc)
    ∙ ap (λ t. t ++ acc) (sym (reverse_onto-append (c ∷ []) s))

pub reverse_onto-cons : (c : ℕ) (s : List ℕ) → reverse_onto [] (c ∷ s) ≡ reverse_onto [] s ++ c ∷ []
unfolding reverse_onto
reverse_onto-cons c s = reverse_onto-append (c ∷ []) s

abbrev Fair : Option (AsyncMutex × Trace) → Type 0
Fair none = Unit
Fair (some (m, h)) = IsFair m h

-- The lock is free and is taken at once.
IsFair-take :
    (t : ℕ) (heads : List ℕ) (h : Trace)
    → IsFair (record { state = not_locked; waiters_head = heads }) h
    → IsFair (record { state = locked []; waiters_head = heads }) (ask t true h)
unfolding reverse_onto
IsFair-take t heads h f = record {
  order =
      ap (λ s. s ++ t ∷ [])
        (f.order ∙ ap (λ s. h.granted ++ (s ++ [])) f.free ∙ append-nil h.granted)
      ∙ sym (append-nil (h.granted ++ t ∷ []))
      ∙ ap (λ s. (h.granted ++ t ∷ []) ++ (s ++ [])) (sym f.free);
  one = omega (arith, f.one, length-append h.granted (t ∷ []));
  free = tt;
}

-- The lock is held and the coroutine waits.
IsFair-wait :
    (t : ℕ) (ws heads : List ℕ) (h : Trace)
    → IsFair (record { state = locked ws; waiters_head = heads }) h
    → IsFair (record { state = locked (t ∷ ws); waiters_head = heads }) (ask t false h)
IsFair-wait t ws heads h f = record {
  order =
      ap (λ s. s ++ t ∷ []) f.order
      ∙ append_assoc h.granted (heads ++ reverse_onto [] ws) (t ∷ [])
      ∙ ap (λ s. h.granted ++ s)
          (append_assoc heads (reverse_onto [] ws) (t ∷ [])
            ∙ ap (λ s. heads ++ s) (sym (reverse_onto-cons t ws)));
  one = f.one;
  free = tt;
}

-- The first of those that wait gets the lock.
IsFair-resume :
    (ws all : List ℕ) (h : Trace) (m : AsyncMutex)
    → m.state ≡ locked ws
    → h.asked ≡ h.granted ++ (all ++ reverse_onto [] ws)
    → length h.granted ≡ h.released + 1
    → Fair (let_go h (resume_head m all))
IsFair-resume ws [] h m e order one = tt
IsFair-resume ws (w ∷ rest) h m e order one = record {
  order =
      order
      ∙ sym (append_assoc h.granted (w ∷ []) (rest ++ reverse_onto [] ws))
      ∙ ap (λ s. (h.granted ++ w ∷ []) ++ (rest ++ stacked s)) (sym e);
  one =
      length-append h.granted (w ∷ [])
      ∙ ap (λ n. n + 1) one
      ∙ ap (λ s. h.released + 1 + holders s) (sym e);
  free = subst (λ s. NoWaiters s rest) (sym e) tt;
}

IsFair-await_suspend :
    (t : ℕ) (s : LockState) (heads : List ℕ) (h : Trace)
    → IsFair (record { state = s; waiters_head = heads }) h
    → Fair (step (lock t) (record { state = s; waiters_head = heads }) h)
unfolding step await_suspend
IsFair-await_suspend t not_locked heads h f = IsFair-take t heads h f
IsFair-await_suspend t (locked ws) heads h f = IsFair-wait t ws heads h f

IsFair-try_lock :
    (t : ℕ) (s : LockState) (heads : List ℕ) (h : Trace)
    → IsFair (record { state = s; waiters_head = heads }) h
    → Fair (step (try t) (record { state = s; waiters_head = heads }) h)
unfolding step try_lock
IsFair-try_lock t not_locked heads h f = IsFair-take t heads h f
IsFair-try_lock t (locked ws) heads h f = f

IsFair-unlock :
    (s : LockState) (heads : List ℕ) (h : Trace)
    → IsFair (record { state = s; waiters_head = heads }) h
    → Fair (step release (record { state = s; waiters_head = heads }) h)
unfolding step unlock reverse_onto
IsFair-unlock not_locked heads h f = tt
IsFair-unlock (locked ws) (w ∷ heads) h f =
    IsFair-resume ws (w ∷ heads) h (record { state = locked ws; waiters_head = w ∷ heads }) refl
      f.order f.one
IsFair-unlock (locked []) [] h f = record {
  order = f.order ∙ sym (append-nil (h.granted ++ []));
  one = omega (arith, f.one, length-append h.granted []);
  free = refl;
}
IsFair-unlock (locked (w ∷ ws)) [] h f =
    IsFair-resume [] (reverse_onto [] (w ∷ ws)) h (record { state = locked []; waiters_head = [] })
      refl (f.order ∙ ap (λ s. h.granted ++ s) (sym (append-nil (reverse_onto [] (w ∷ ws))))) f.one

IsFair-step : (op : Op) (m : AsyncMutex) (h : Trace) → IsFair m h → Fair (step op m h)
IsFair-step (lock t) m h f = IsFair-await_suspend t m.state m.waiters_head h f
IsFair-step (try t) m h f = IsFair-try_lock t m.state m.waiters_head h f
IsFair-step release m h f = IsFair-unlock m.state m.waiters_head h f

Fair-and_run :
    (ops : List Op) (o : Option (AsyncMutex × Trace))
    → Fair o
    → ((m : AsyncMutex) (h : Trace) → IsFair m h → Fair (run ops m h))
    → Fair (and_run (λ m h. run ops m h) o)
Fair-and_run ops none f next = tt
Fair-and_run ops (some (m, h)) f next = next m h f

Fair-run : (ops : List Op) (m : AsyncMutex) (h : Trace) → IsFair m h → Fair (run ops m h)
unfolding run
Fair-run [] m h f = f
Fair-run (op ∷ ops) m h f =
    Fair-and_run ops (step op m h) (IsFair-step op m h f) (λ m' h' f'. Fair-run ops m' h' f')

-- Whatever the interleaving of calls is, the coroutines that asked for the lock, in the order in
-- which they asked, are those that got it, in the order in which they got it, and then those that
-- wait; and all that got it but one, or all where the lock is free, have let it go.
pub run-IsFair :
    (ops : List Op) (m m' : AsyncMutex) (h h' : Trace)
    → IsFair m h
    → run ops m h ≡ some (m', h')
    → IsFair m' h'
run-IsFair ops m m' h h' f e = subst Fair e (Fair-run ops m h f)
