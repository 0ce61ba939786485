-- ===== src/Profiler/Locks.antt =====
-- The spin locks of the sample buffers: `getLockIndex`, the three tries of a sample, and `lockAll`.
use java_profiler.Base.{
  ℕ, zero, suc, ◌+◌, ◌/◌, ◌%◌, ◌^◌, bit_xor, if◌then◌else◌, update, Option, none, some, ◌>>=◌,
}
use java_profiler.Profiler.{Profiler, Result, concurrency_level}
use java_profiler.SpinLock.{try_lock, unlock}

-- An `int` as the pattern of a `u32`.
unfoldable pub get_lock_index : (tid : ℕ) → ℕ
get_lock_index tid =
    let once = bit_xor tid (tid / 2 ^ 8) in bit_xor once (once / 2 ^ 4) % concurrency_level

-- A try at the lock `i`, and what is done if it fails.
unfoldable pub try_at :
    (i : ℕ) (otherwise : (ℕ → ℕ) → Option ℕ × (ℕ → ℕ)) (locks : ℕ → ℕ) → Option ℕ × (ℕ → ℕ)
try_at i otherwise locks =
    let (acquired, lock) = try_lock (locks i) in
    if acquired then (some i, update locks i lock) else otherwise locks

-- The condition of every `record` operation: the index whose lock was acquired, `none` for none.
unfoldable pub acquire : (tid : ℕ) (locks : ℕ → ℕ) → Option ℕ × (ℕ → ℕ)
unfolding get_lock_index try_at
acquire tid =
    let first = get_lock_index tid in
    let second = (first + 1) % concurrency_level in
    let third = (second + 2) % concurrency_level in
    try_at first (try_at second (try_at third (λ locks. (none, locks))))

unfoldable pub release_lock : ℕ → (ℕ → ℕ) → ℕ → ℕ
release_lock i locks = update locks i (unlock (locks i))

-- `lock()` where no other thread releases the lock: the first round acquires it, or none does.
unfoldable pub spin : (lock : ℕ) → Option ℕ
spin lock = let (acquired, lock') = try_lock lock in if acquired then some lock' else none

unfoldable pub lock_all : (left i : ℕ) (locks : ℕ → ℕ) → Option (ℕ → ℕ)
unfolding spin
lock_all zero i locks = some locks
lock_all (suc left) i locks = do lock ← spin (locks i); lock_all left (i + 1) (update locks i lock)

unfoldable pub unlock_all : (left i : ℕ) (locks : ℕ → ℕ) → ℕ → ℕ
unlock_all zero i locks = locks
unlock_all (suc left) i locks = unlock_all left (i + 1) (update locks i (unlock (locks i)))

-- `lockAll(); body; unlockAll()`
unfoldable pub all_locked : (body : Profiler → Result) → Profiler → Result
unfolding lock_all unlock_all
all_locked body p = do
  locks ← lock_all concurrency_level 0 p.locks
  (error, p') ← body (record p { locks = locks })
  some (error, record p' { locks = unlock_all concurrency_level 0 p'.locks })
