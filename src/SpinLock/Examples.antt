-- ===== src/SpinLock/Examples.antt =====
-- Runs of two threads over one lock, and the theorems at them.
use java_profiler.Base.{ℕ, ◌-◌, ◌^◌, true, false, ◌≡◌, refl, ◌≢◌, inl, update, arith}
use java_profiler.SpinLock.{
  reset, try_lock, admits_shared, swap_shared, unlock_shared, try_lock_shared,
}
use java_profiler.SpinLock.Progress.{Steps, can_acquire}
use java_profiler.SpinLock.Safety.{exclusive_alone}
use java_profiler.SpinLock.Threads.{
  Pc, exclusive, shared, idle, loaded, init, System, Reach, start, later, pick, acquire, load, swap,
  release_shared,
}

two_shared : unlock_shared (unlock_shared (2 ^ 32 - 2)) ≡ 0
unfolding unlock_shared
two_shared = refl

shared_refused : try_lock_shared 1 ≡ (false, 1)
unfolding try_lock_shared
shared_refused = refl

-- Thread 0 takes the lock.
owned : Reach 2 (record { lock = 1; pc = update init.pc 0 exclusive })
unfolding try_lock
owned = later start (pick 0 (omega arith) (acquire refl))

exclusive_alone_example : ◌≡◌ {A = ℕ} 0 0
exclusive_alone_example =
    exclusive_alone (omega arith) owned 0 0 (omega arith) (omega arith) refl (inl refl)

abbrev loaded_pc : ℕ → Pc
loaded_pc = update init.pc 1 (loaded 0)

abbrev shared_pc : ℕ → Pc
shared_pc = update loaded_pc 1 shared

-- Thread 1 takes the lock shared, and gives it back.
returned : Reach 2 (record { lock = unlock_shared (2 ^ 32 - 1); pc = update shared_pc 1 idle })
unfolding admits_shared swap_shared
returned =
    later
      (later (later start (pick 1 (omega arith) (load refl)))
        (pick 1 (omega arith) (swap {lock' = 2 ^ 32 - 1} refl)))
      (pick 1 (omega arith) release_shared)

-- A lock that is reset is free, whatever it was.
reset_free : try_lock_shared (reset 1) ≡ (true, 2 ^ 32 - 1)
unfolding reset try_lock_shared
reset_free = refl

-- Thread 1 takes the lock after thread 0 has given it back.
can_acquire_example :
    (t : System) × Steps 2 (record { lock = 1; pc = update init.pc 0 exclusive }) t
    × (t.pc 1 ≡ exclusive)
    × ((j : ℕ) → 1 ≢ j → t.pc j ≡ idle)
can_acquire_example = can_acquire (omega arith) owned 1 (omega arith)
