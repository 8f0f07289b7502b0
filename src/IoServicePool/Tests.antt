-- ===== src/IoServicePool/Tests.antt =====
-- A pool of three event loops.
use libcold.Base.{ℕ, ◌≡◌, refl, [], ◌∷◌, none, some, ◌>>=◌, arith}
use libcold.IoServicePool.{IoServicePool, wrap_index, take_next, get_io_service_for_hash, get_many}
use libcold.IoServicePool.Turns.{get_many-each_once}

abbrev three_loops : ℕ → IoServicePool
three_loops i = record { main_io_service = 0; service_vector = 1 ∷ 2 ∷ 3 ∷ []; index = i }

get_many-each_once_example :
    (i' : ℕ) × (get_many 3 (three_loops 2) ≡ some (3 ∷ 1 ∷ 2 ∷ [], three_loops i'))
get_many-each_once_example = get_many-each_once (three_loops 2) (omega arith)

same_hash : get_io_service_for_hash 7 (three_loops 0) ≡ some 2
unfolding get_io_service_for_hash
same_hash = refl

-- Two threads test the index, and then both go on: the second is out of range.
two_threads : (take_next (wrap_index (wrap_index (three_loops 2))) >>= λ r. take_next r.1) ≡ none
unfolding take_next wrap_index
two_threads = refl
