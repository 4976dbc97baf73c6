-- ===== src/Lock.antt =====
-- CUDA/Lock.h: the spin lock of a stack, and the threads that `ProcessStack` runs around it.
pub mod Exclusion
use gpu_moses.Prelude.{ℕ, ◌≡◌, Bool, true, false, some, List, get_elem?, set, ◌==◌, if◌then◌else◌}

-- `atomicCAS` on an `int`: what it returns, and what it leaves.
abbrev pub atomic_cas : ℕ → ℕ → ℕ → ℕ × ℕ
atomic_cas mutex expected value = (mutex, if mutex == expected then value else mutex)

-- One round of the loop in `lock`: whether the loop ends, and the mutex after it.
unfoldable pub try_lock : ℕ → Bool × ℕ
try_lock mutex = let cas = atomic_cas mutex 0 1 in (cas.0 == 0, cas.1)

-- `unlock`: `atomicExch(mutex, 0)`.
unfoldable pub unlock : ℕ → ℕ
unlock mutex = 0

-- Where a thread stands: before `lock`, in its loop, between `lock` and `unlock`.
pub data Phase : Type 0 where
  outside waiting holding : Phase

-- One atomic action of one thread, on the mutex and the phases of all threads.
pub data Step (mutex : ℕ) (threads : List Phase) : ℕ → List Phase → Type 0 where
  request :
      (i : ℕ)
      → get_elem? threads i ≡ some outside
      → Step mutex threads mutex (set threads i waiting)
  attempt :
      (i : ℕ)
      → get_elem? threads i ≡ some waiting
      → Step mutex threads
          (try_lock mutex).1
          (if (try_lock mutex).0 then set threads i holding else threads)
  release :
      (i : ℕ)
      → get_elem? threads i ≡ some holding
      → Step mutex threads (unlock mutex) (set threads i outside)

-- What a run reaches from a new lock, whose mutex is 0, and threads that are all before `lock`.
pub data Reachable (start : List Phase) : ℕ → List Phase → Type 0 where
  begin : Reachable start 0 start
  step :
      {mutex mutex' : ℕ} {threads threads' : List Phase}
      → Reachable start mutex threads
      → Step mutex threads mutex' threads'
      → Reachable start mutex' threads'
