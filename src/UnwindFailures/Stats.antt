-- ===== src/UnwindFailures/Stats.antt =====
-- unwindStats.h: the failures of all threads, behind a lock; by one thread, so that a lock that is not free
-- is waited for without end, and the result is then `none`.
use java_profiler.Base.{
  ℕ, zero, suc, ◌+◌, Bool, true, false, ltb, if◌then◌else◌, List, [], ◌∷◌, ◌++◌, Option, none, some,
  ◌>>=◌,
}
use java_profiler.SpinLock.{try_lock, unlock, try_lock_shared, unlock_shared}
use java_profiler.UnwindFailures.{
  UnwindFailureKind, stub, compiled, UnwindFailures, clear, count, merge, swap,
}

-- `_lock` and `_unwind_failures`
pub record UnwindStats : Type 0 where
  pub lock : ℕ
  pub failures : UnwindFailures

-- The constructors of the two locks.
unfoldable pub locked : Bool × ℕ → Option ℕ
locked (true, lock) = some lock
locked (false, lock) = none

-- What `record_failures` does with the lock, or without it.
unfoldable pub merge_locked : UnwindFailures → UnwindStats → Bool × ℕ → Option UnwindStats
merge_locked failures s (true, lock) = do
  merged ← merge failures s.failures
  some (record { lock = unlock lock; failures = merged })
merge_locked failures s (false, lock) = some s

unfoldable pub record_failures : UnwindFailures → UnwindStats → Option UnwindStats
record_failures failures s = merge_locked failures s (try_lock s.lock)

unfoldable pub count_failures : List ℕ → UnwindFailureKind → UnwindStats → Option (ℕ × UnwindStats)
count_failures name kind s = do
  lock ← locked (try_lock_shared s.lock)
  n ← count name kind s.failures
  some (n, record s { lock = unlock_shared lock })

unfoldable pub collect_and_reset :
    UnwindFailures → UnwindStats → Option (UnwindFailures × UnwindStats)
collect_and_reset result s = do
  lock ← locked (try_lock s.lock)
  let (collected, failures) = swap result s.failures
  some (collected, record { lock = unlock lock; failures = failures })

unfoldable pub reset : UnwindStats → Option UnwindStats
reset s = do
  lock ← locked (try_lock s.lock)
  some (record { lock = unlock lock; failures = clear s.failures })

-- The calls of `fn` in `forEach`.
unfoldable pub called : UnwindFailureKind → List ℕ → ℕ → List (UnwindFailureKind × List ℕ × ℕ)
called kind name count = if ltb 0 count then (kind, name, count) ∷ [] else []

unfoldable pub for_each_from : UnwindFailures → (left i : ℕ) → List (UnwindFailureKind × List ℕ × ℕ)
for_each_from u zero i = []
for_each_from u (suc left) i =
    called stub (u.names i) (u.counters i 0)
    ++ (called compiled (u.names i) (u.counters i 1) ++ for_each_from u left (i + 1))

unfoldable pub for_each : UnwindFailures → List (UnwindFailureKind × List ℕ × ℕ)
for_each u = for_each_from u u.name_count 0
