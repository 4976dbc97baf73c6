-- ===== src/Lock/Exclusion.antt =====
-- At most one thread is between `lock` and `unlock`, and the lock is free when none is.
use mathlib.Core.Option.{some-injective}
use gpu_moses.Prelude.{
  ℕ, zero, suc, ◌+◌, ◌≤◌, ◌≡◌, ◌≢◌, refl, sym, ap, ◌∙◌, true, some, List, [], ◌∷◌, arith, get_elem?,
  set, none≢some, if◌then◌else◌, ℕ_discrete,
}
use gpu_moses.Lock.{
  Phase, outside, waiting, holding, Step, request, attempt, release, Reachable, begin, step,
  try_lock, unlock,
}

abbrev holds_it : Phase → ℕ
holds_it outside = 0
holds_it waiting = 0
holds_it holding = 1

abbrev pub holders : List Phase → ℕ
holders [] = 0
holders (p ∷ ps) = holds_it p + holders ps

holders-set :
    (i : ℕ) (p q : Phase) (ps : List Phase)
    → get_elem? ps i ≡ some p
    → holders (set ps i q) + holds_it p ≡ holders ps + holds_it q
holders-set i p q [] at = absurd (none≢some p at)
holders-set zero p q (x ∷ ps) at = let same : x ≡ p = some-injective x p at in rw same (omega arith)
holders-set (suc i) p q (x ∷ ps) at = omega (arith, holders-set i p q ps at)

holder_counts : (i : ℕ) (ps : List Phase) → get_elem? ps i ≡ some holding → 1 ≤ holders ps
holder_counts i [] at = absurd (none≢some holding at)
holder_counts zero (x ∷ ps) at =
    let same : x ≡ holding = some-injective x holding at in rw same (omega arith)
holder_counts (suc i) (x ∷ ps) at = omega (arith, holder_counts i ps at)

two_holders :
    (i j : ℕ) (ps : List Phase)
    → get_elem? ps i ≡ some holding
    → get_elem? ps j ≡ some holding
    → i ≢ j
    → 2 ≤ holders ps
two_holders i j [] at_i at_j differ = absurd (none≢some holding at_i)
two_holders zero zero (x ∷ ps) at_i at_j differ = absurd (differ refl)
two_holders zero (suc j) (x ∷ ps) at_i at_j differ =
    let same : x ≡ holding = some-injective x holding at_i in
    rw same (omega (arith, holder_counts j ps at_j))
two_holders (suc i) zero (x ∷ ps) at_i at_j differ =
    let same : x ≡ holding = some-injective x holding at_j in
    rw same (omega (arith, holder_counts i ps at_i))
two_holders (suc i) (suc j) (x ∷ ps) at_i at_j differ =
    omega (arith, two_holders i j ps at_i at_j (λ e. differ (ap suc e)))

-- The mutex counts the threads that hold the lock, and there is at most one.
abbrev IsCounted : ℕ → List Phase → Type 0
IsCounted mutex threads = (mutex ≡ holders threads) × (mutex ≤ 1)

attempt-IsCounted :
    (mutex i : ℕ) (threads : List Phase)
    → get_elem? threads i ≡ some waiting
    → IsCounted mutex threads
    → IsCounted (try_lock mutex).1 (if (try_lock mutex).0 then set threads i holding else threads)
unfolding try_lock
attempt-IsCounted mutex i threads at c = elim (ℕ_discrete mutex 0) [
  | yes free ↦ rw free (omega (arith, holders-set i waiting holding threads at, c.0), omega arith)
  | no taken ↦ let one : mutex ≡ 1 = omega (arith, c.1) in rw one (sym one ∙ c.0, omega arith)
]

Step-IsCounted :
    {mutex mutex' : ℕ} {threads threads' : List Phase}
    → Step mutex threads mutex' threads'
    → IsCounted mutex threads
    → IsCounted mutex' threads'
unfolding unlock
Step-IsCounted (request i at) c = (omega (arith, holders-set i outside waiting _ at, c.0), c.1)
Step-IsCounted (attempt i at) c = attempt-IsCounted _ i _ at c
Step-IsCounted (release i at) c =
    (omega (arith, holders-set i holding outside _ at, c.0, c.1), omega arith)

Reachable-IsCounted :
    {start threads : List Phase} {mutex : ℕ}
    → holders start ≡ 0
    → Reachable start mutex threads
    → IsCounted mutex threads
Reachable-IsCounted no_one begin = (sym no_one, omega arith)
Reachable-IsCounted no_one (step before s) = Step-IsCounted s (Reachable-IsCounted no_one before)

-- From a new lock, whatever the order of the threads' actions, two threads are never both between
-- `lock` and `unlock`.
pub lock_excludes :
    (start threads : List Phase) (mutex i j : ℕ)
    → holders start ≡ 0
    → Reachable start mutex threads
    → get_elem? threads i ≡ some holding
    → get_elem? threads j ≡ some holding
    → i ≡ j
lock_excludes start threads mutex i j no_one reachable at_i at_j =
    let (count, most) = Reachable-IsCounted no_one reachable in
    elim (ℕ_discrete i j) [
      | yes same ↦ same
      | no differ ↦ absurd (omega (arith, two_holders i j threads at_i at_j differ, count, most))
    ]

-- From a new lock, whenever no thread is between `lock` and `unlock`, the next round of any thread's
-- loop in `lock` succeeds.
pub lock_free :
    (start threads : List Phase) (mutex : ℕ)
    → holders start ≡ 0
    → Reachable start mutex threads
    → holders threads ≡ 0
    → try_lock mutex ≡ (true, 1)
unfolding try_lock
lock_free start threads mutex no_one reachable idle =
    let (count, most) = Reachable-IsCounted no_one reachable in
    let free : mutex ≡ 0 = omega arith in rw free refl
