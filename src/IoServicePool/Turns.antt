-- ===== src/IoServicePool/Turns.antt =====
-- Each event loop of a pool has its turn.
use libcold.Base.{
  ℕ, zero, suc, ◌+◌, ◌-◌, ◌≤◌, ◌<◌, ◌≡◌, refl, ap, ◌∙◌, sym, List, [], ◌∷◌, ◌++◌, true, false, some,
  leb, length, get_elem?, is_empty, take, drop, arith,
}
use libcold.IoServicePool.{IoServicePool, get_many, get_next_io_service, take_next, wrap_index}

-- A place in a list: what stands there, and what follows.
get_elem-drop :
    (xs : List ℕ) (i : ℕ)
    → i < length xs
    → (x : ℕ) × (get_elem? xs i ≡ some x) × (drop i xs ≡ x ∷ drop (suc i) xs)
get_elem-drop [] i h = absurd (omega arith)
get_elem-drop (x ∷ xs) zero h = (x, refl, refl)
get_elem-drop (x ∷ xs) (suc i) h = get_elem-drop xs i (omega arith)

abbrev pool_at : ℕ → List ℕ → ℕ → IoServicePool
pool_at main xs i = record { main_io_service = main; service_vector = xs; index = i }

is_empty-some : (xs : List ℕ) → 0 < length xs → is_empty xs ≡ false
is_empty-some [] h = absurd (omega arith)
is_empty-some (x ∷ xs) h = refl

-- As long as the index stays in range.
get_many-take :
    (main : ℕ) (xs : List ℕ) (n i : ℕ)
    → i + n ≤ length xs
    → get_many n (pool_at main xs i) ≡ some (take n (drop i xs), pool_at main xs (i + n))
unfolding get_many get_next_io_service take_next wrap_index
get_many-take main xs zero i h =
    let e : i ≡ i + 0 = omega arith in ap (λ j. some ([], pool_at main xs j)) e
get_many-take main xs (suc n) i h =
    let here = get_elem-drop xs i (omega arith) in
    let in_range : leb (length xs) i ≡ false = ground arith in
    let e : suc i + n ≡ i + suc n = omega arith in
    rw
      (
        is_empty-some xs (omega arith),
        in_range,
        here.1,
        here.2,
        get_many-take main xs n (suc i) (omega arith),
      )
      (ap (λ j. some (here.0 ∷ take n (drop (suc i) xs), pool_at main xs j)) e)

-- Behind the last event loop the first one has its turn.
get_many-wrapped :
    (main : ℕ) (xs : List ℕ) (m : ℕ)
    → m ≤ length xs
    → (i' : ℕ) × (get_many m (pool_at main xs (length xs)) ≡ some (take m xs, pool_at main xs i'))
unfolding get_many get_next_io_service wrap_index
get_many-wrapped main xs zero h = (length xs, refl)
get_many-wrapped main xs (suc m) h =
    let past : leb (length xs) (length xs) ≡ true = ground arith in
    let here = get_elem-drop xs 0 (omega arith) in
    (
      1 + m,
      rw (is_empty-some xs (omega arith), past, here.1, get_many-take main xs m 1 (omega arith))
          (ap (λ l. some (take (suc m) l, pool_at main xs (1 + m))) (sym here.2)),
    )

drop-all : (xs : List ℕ) (i : ℕ) → length xs ≤ i → drop i xs ≡ []
drop-all [] zero h = refl
drop-all [] (suc i) h = refl
drop-all (x ∷ xs) zero h = absurd (omega arith)
drop-all (x ∷ xs) (suc i) h = drop-all xs i (omega arith)

get_many-around :
    (main : ℕ) (xs : List ℕ) (n m i : ℕ)
    → i + n ≡ length xs
    → m ≤ length xs
    → (i' : ℕ) × (get_many (n + m) (pool_at main xs i)
        ≡ some (drop i xs ++ take m xs, pool_at main xs i'))
unfolding get_many get_next_io_service take_next wrap_index
get_many-around main xs zero m i e h =
    let w = get_many-wrapped main xs m h in
    let calls : 0 + m ≡ m = omega arith in
    let at_end : i ≡ length xs = omega arith in
    (
      w.0,
      ap (λ k. get_many k (pool_at main xs i)) calls
          ∙ ap (λ j. get_many m (pool_at main xs j)) at_end
          ∙ w.1
          ∙ ap (λ d. some (d ++ take m xs, pool_at main xs w.0))
              (sym (drop-all xs i (omega arith))),
    )
get_many-around main xs (suc n) m i e h =
    let here = get_elem-drop xs i (omega arith) in
    let in_range : leb (length xs) i ≡ false = ground arith in
    let calls : suc n + m ≡ suc (n + m) = omega arith in
    let later = get_many-around main xs n m (suc i) (omega arith) h in
    (
      later.0,
      ap (λ k. get_many k (pool_at main xs i)) calls
          ∙ rw (is_empty-some xs (omega arith), in_range, here.1, here.2, later.1) refl,
    )

-- As many calls of GetNextIoService as there are event loops, from an index in range or at the end,
-- give each event loop once: those from the index on, and then those before it.
pub get_many-each_once :
    (p : IoServicePool)
    → p.index ≤ length p.service_vector
    → (i' : ℕ) × (get_many (length p.service_vector) p
        ≡ some (
          drop p.index p.service_vector ++ take p.index p.service_vector,
          record p { index = i' },
        ))
get_many-each_once p h =
    let split : length p.service_vector ≡ (length p.service_vector - p.index) + p.index =
      omega arith in
    let around =
      get_many-around p.main_io_service p.service_vector (length p.service_vector - p.index) p.index
        p.index (omega arith) h in
    (around.0, ap (λ k. get_many k p) split ∙ around.1)
