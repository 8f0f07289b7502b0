-- ===== src/AsyncMutex/Release.antt =====
-- What a release of the lock does.
use libcold.Base.{
  ◌<◌, subst, ℕ, ◌≡◌, refl, sym, ap, ◌∙◌, List, [], ◌∷◌, ◌++◌, append-nil, Option, none, some,
  length, length-append, take, arith,
}
use libcold.AsyncMutex.{locked, AsyncMutex, reverse_onto, resume_head, unlock}
use libcold.AsyncMutex.Order.{waiting, stacked, holders, reverse_onto-cons}

-- What a release does: the first of those that wait gets the lock, where there is one, the others
-- wait on, and the lock is held after it exactly if there was one.
abbrev pub HandsOver : AsyncMutex → Option (AsyncMutex × List ℕ) → Type 0
HandsOver m none = ⊥
HandsOver m (some (m', next)) =
    (next ≡ take 1 (waiting m))
    × (waiting m ≡ next ++ waiting m')
    × (holders m'.state ≡ length next)

HandsOver-resume_head :
    (ws all : List ℕ) (m n : AsyncMutex)
    → n.state ≡ locked ws
    → 0 < length all
    → waiting m ≡ all ++ reverse_onto [] ws
    → HandsOver m (resume_head n all)
HandsOver-resume_head ws [] m n e h order = absurd (omega arith)
HandsOver-resume_head ws (w ∷ rest) m n e h order = (
  sym (ap (λ s. take 1 s) order),
  order ∙ ap (λ s. w ∷ (rest ++ stacked s)) (sym e),
  ap holders e,
)

length-reverse_onto : (w : ℕ) (ws : List ℕ) → 0 < length (reverse_onto [] (w ∷ ws))
length-reverse_onto w ws =
    omega (arith, ap length (reverse_onto-cons w ws), length-append (reverse_onto [] ws) (w ∷ []))

HandsOver-unlock :
    (ws heads : List ℕ)
    → HandsOver
        (record { state = locked ws; waiters_head = heads })
        (unlock (record { state = locked ws; waiters_head = heads }))
unfolding unlock reverse_onto
HandsOver-unlock ws (w ∷ heads) =
    let m : AsyncMutex = record { state = locked ws; waiters_head = w ∷ heads } in
    HandsOver-resume_head ws (w ∷ heads) m m refl (omega arith) refl
HandsOver-unlock [] [] = (refl, refl, refl)
HandsOver-unlock (w ∷ ws) [] =
    HandsOver-resume_head [] (reverse_onto [] (w ∷ ws))
      (record { state = locked (w ∷ ws); waiters_head = [] })
      (record { state = locked []; waiters_head = [] }) refl (length-reverse_onto w ws)
      (sym (append-nil (reverse_onto [] (w ∷ ws))))

-- A release of a lock that is held does not fail: the first coroutine that waits gets the lock, and
-- the others keep their order, and where none waits the lock is free.
pub unlock-HandsOver : (m : AsyncMutex) (ws : List ℕ) → m.state ≡ locked ws → HandsOver m (unlock m)
unlock-HandsOver m ws e =
    subst
      (λ s.
        HandsOver (record { state = s; waiters_head = m.waiters_head })
          (unlock (record { state = s; waiters_head = m.waiters_head })))
      (sym e) (HandsOver-unlock ws m.waiters_head)
