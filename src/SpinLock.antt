-- ===== src/SpinLock.antt =====
-- spinLock.h: the lock that guards the storages against signal handlers. A `volatile int` is its
-- 32-bit pattern, so a negative value is one from 2 ^ 31 on.
pub mod Threads
pub mod Invariant
pub mod Safety
pub mod Progress
mod Examples
use java_profiler.Base.{ℕ, ◌+◌, ◌-◌, ◌%◌, ◌^◌, Bool, true, false, ◌||◌, ◌==◌, leb, if◌then◌else◌}

-- 0 is free, 1 is exclusive, a negative value counts the shared holders.
pub unlocked : ℕ
unlocked = 0

unfoldable pub reset : ℕ → ℕ
reset lock = 0

-- `__sync_bool_compare_and_swap(&_lock, expected, desired)`
unfoldable pub compare_and_swap : ℕ → ℕ → ℕ → Bool × ℕ
compare_and_swap lock expected desired = if lock == expected then (true, desired) else (false, lock)

unfoldable pub try_lock : ℕ → Bool × ℕ
unfolding compare_and_swap
try_lock lock = compare_and_swap lock 0 1

-- `__sync_fetch_and_sub(&_lock, 1)`
unfoldable pub unlock : ℕ → ℕ
unlock lock = (lock + 2 ^ 32 - 1) % 2 ^ 32

-- `value <= 0`, the test of both loops over the shared lock.
unfoldable pub admits_shared : ℕ → Bool
admits_shared value = value == 0 || leb (2 ^ 31) value

-- The compare-and-swap of both loops: from the `value` that was loaded to `value - 1`.
unfoldable pub swap_shared : ℕ → ℕ → Bool × ℕ
unfolding compare_and_swap
swap_shared lock value = compare_and_swap lock value ((value + 2 ^ 32 - 1) % 2 ^ 32)

-- `__sync_fetch_and_add(&_lock, 1)`
unfoldable pub unlock_shared : ℕ → ℕ
unlock_shared lock = (lock + 1) % 2 ^ 32

-- `tryLockShared` when no other thread writes between the load and the compare-and-swap: the loop
-- then ends in its first round.
unfoldable pub try_lock_shared : ℕ → Bool × ℕ
unfolding admits_shared swap_shared
try_lock_shared lock = if admits_shared lock then swap_shared lock lock else (false, lock)
