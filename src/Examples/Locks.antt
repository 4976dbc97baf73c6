-- ===== src/Examples/Locks.antt =====
-- CUDA/Lock.h with two threads, of which one has the lock.
use gpu_moses.Prelude.{ℕ, ◌≡◌, refl, true, List, [], ◌∷◌}
use gpu_moses.Lock.{Phase, outside, holding, Reachable, begin, step, request, attempt, try_lock}
use gpu_moses.Lock.Exclusion.{lock_excludes, lock_free}

abbrev idle : List Phase
idle = outside ∷ outside ∷ []

abbrev locked : List Phase
locked = holding ∷ outside ∷ []

locked-Reachable : Reachable idle 1 locked
unfolding try_lock
locked-Reachable = step (step begin (request 0 refl)) (attempt 0 refl)

lock_excludes_example : ◌≡◌ {A = ℕ} 0 0
lock_excludes_example = lock_excludes idle locked 1 0 0 refl locked-Reachable refl refl

lock_free_example : try_lock 0 ≡ (true, 1)
lock_free_example = lock_free idle idle 0 refl begin refl
