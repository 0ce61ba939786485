-- ===== src/SpinLock/Threads.antt =====
-- Threads over one lock, interleaved at each access to `_lock`.
use java_profiler.Base.{ℕ, ◌<◌, true, false, ◌≡◌, update}
use java_profiler.SpinLock.{try_lock, unlock, admits_shared, swap_shared, unlock_shared}

-- Where a thread stands, with the `value` that a shared acquisition has loaded.
pub data Pc : Type 0 where
  idle : Pc
  loaded : (value : ℕ) → Pc
  exclusive : Pc
  shared : Pc

-- One access by one thread. A round of `lock`, `lockShared` or `tryLockShared` that fails goes back
-- to `idle`: from there the loop may go on, or the caller may have given up.
pub data Move (lock : ℕ) : Pc → ℕ → Pc → Type 0 where
  acquire : {lock' : ℕ} → try_lock lock ≡ (true, lock') → Move lock idle lock' exclusive
  busy : {lock' : ℕ} → try_lock lock ≡ (false, lock') → Move lock idle lock' idle
  load : admits_shared lock ≡ true → Move lock idle lock (loaded lock)
  refused : admits_shared lock ≡ false → Move lock idle lock idle
  swap :
      {value lock' : ℕ}
      → swap_shared lock value ≡ (true, lock')
      → Move lock (loaded value) lock' shared
  lost :
      {value lock' : ℕ}
      → swap_shared lock value ≡ (false, lock')
      → Move lock (loaded value) lock' idle
  release : Move lock exclusive (unlock lock) idle
  release_shared : Move lock shared (unlock_shared lock) idle

pub record System : Type 0 where
  pub lock : ℕ
  pub pc : ℕ → Pc

pub data Step (n : ℕ) (s : System) : System → Type 0 where
  pick :
      (i : ℕ) {lock' : ℕ} {p : Pc}
      → i < n
      → Move s.lock (s.pc i) lock' p
      → Step n s (record { lock = lock'; pc = update s.pc i p })

-- A constructed lock is free, and no thread has started an operation.
abbrev pub init : System
init = record { lock = 0; pc = λ _. idle }

pub data Reach (n : ℕ) : System → Type 0 where
  start : Reach n init
  later : {s t : System} → Reach n s → Step n s t → Reach n t
