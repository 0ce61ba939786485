-- ===== src/SpinLock/Safety.antt =====
-- What the lock promises to its callers in every reachable state.
use java_profiler.Base.{ℕ, ◌^◌, ◌≤◌, ◌<◌, true, ◌≡◌, ◌≢◌, ◌⊎◌, arith}
use java_profiler.Base.Sums.{le-sum_below, add-le-sum_below, sum_below_zero}
use java_profiler.SpinLock.{unlocked, try_lock, try_lock_shared}
use java_profiler.SpinLock.Threads.{Pc, exclusive, shared, System, Reach}
use java_profiler.SpinLock.Invariant.{holds_exclusive, holds_shared, Reach-Inv}
use native.Mathlib.Decide.{dec_lt}

-- With at most 2 ^ 31 threads, a thread that holds the lock exclusively is the only holder: no other
-- thread holds it, exclusively or shared.
pub exclusive_alone :
    {n : ℕ} {s : System}
    → n ≤ 2 ^ 31
    → Reach n s
    → (i j : ℕ) → i < n
    → j < n
    → s.pc i ≡ exclusive
    → (s.pc j ≡ exclusive) ⊎ (s.pc j ≡ shared)
    → i ≡ j
exclusive_alone {n} {s} few r i j hi hj ei ej =
    let inv = Reach-Inv few r in
    let x = le-sum_below holds_exclusive n s.pc i hi in
    let y = le-sum_below holds_shared n s.pc j hj in
    elim (dec_lt i j) [
      | yes p ↦ ground (arith, x, y, inv.counted, add-le-sum_below holds_exclusive n s.pc i j)
      | no p ↦ ground (arith, x, y, inv.counted, add-le-sum_below holds_exclusive n s.pc j i)
    ]

-- With at most 2 ^ 31 threads, when no thread holds the lock its value is back at 0, so the next
-- `tryLock` and the next uncontended `tryLockShared` both succeed.
pub free_when_unheld :
    {n : ℕ} {s : System}
    → n ≤ 2 ^ 31
    → Reach n s
    → ((i : ℕ) → (s.pc i ≢ exclusive) × (s.pc i ≢ shared))
    → (s.lock ≡ unlocked) × ((try_lock s.lock).0 ≡ true) × ((try_lock_shared s.lock).0 ≡ true)
unfolding unlocked try_lock try_lock_shared
free_when_unheld {n} {s} few r none_holds =
    let inv = Reach-Inv few r in
    let x = sum_below_zero holds_exclusive n s.pc (λ i. not_exclusive (s.pc i) (none_holds i).0) in
    let y = sum_below_zero holds_shared n s.pc (λ i. not_shared (s.pc i) (none_holds i).1) in
    ground (arith, x, y, inv.counted)
  where
    not_exclusive : (p : Pc) → p ≢ exclusive → holds_exclusive p ≡ 0
    not_exclusive p h = ground arith

    not_shared : (p : Pc) → p ≢ shared → holds_shared p ≡ 0
    not_shared p h = ground arith
