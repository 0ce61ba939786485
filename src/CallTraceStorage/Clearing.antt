-- ===== src/CallTraceStorage/Clearing.antt =====
-- `CallTraceStorage::clear`: all tables but the oldest are freed, and that one is emptied. The call
-- `_allocator.clear()`, which gives back the memory of the traces, is left out: the chunks of the
-- allocator are the state of LinearAllocator.
use java_profiler.Base.{
  ℕ, zero, suc, Bool, true, false, ◌≤◌, ◌<◌, ◌≡◌, refl, Option, none, some, arith, ◌>>=◌, ==_refl,
  Option-cases, inl, inr,
}
use java_profiler.CallTraceStorage.Claim.{IsValid, set_table-IsValid}
use java_profiler.SpinLock.{compare_and_swap, try_lock, unlock}
use java_profiler.CallTraceStorage.{
  LongHashTable, CallTraceStorage, Probe, hit, vacant, exhausted, clear_table, find_call_trace,
  search_table, trace_at, set_table,
}

unfoldable pub follow : (ℕ → Option ℕ) → ℕ → Option ℕ → Option ℕ
follow rest i none = some i
follow rest i (some p) = rest p

-- `while (_current_table->prev() != NULL)`
unfoldable pub oldest : (ℕ → LongHashTable) → (fuel i : ℕ) → Option ℕ
unfolding follow
oldest tables zero i = none
oldest tables (suc fuel) i = follow (oldest tables fuel) i (tables i).prev

-- `clear()` behind the first try of `_lock.lock()`, which is none where the lock is taken: without
-- another thread, the loop that waits for it never ends. There are no more rounds than tables.
unfoldable pub clear_locked : CallTraceStorage → Bool × ℕ → Option CallTraceStorage
unfolding oldest clear_table unlock
clear_locked s (false, lock) = none
clear_locked s (true, lock) = do
  i ← oldest s.tables s.allocated s.current_table
  some (record (set_table s i (clear_table (s.tables i))) {
    current_table = i;
    overflow = 0;
    lock = unlock lock;
  })

unfoldable pub clear : CallTraceStorage → Option CallTraceStorage
unfolding clear_locked try_lock
clear s = clear_locked s (try_lock s.lock)

-- A valid storage that no thread has locked.
abbrev pub IsIdle : CallTraceStorage → Type 0
IsIdle s = IsValid s × (s.lock ≡ 0)

-- The storage that `clear` leaves, whose oldest table is `i`.
abbrev emptied : CallTraceStorage → ℕ → CallTraceStorage
emptied s i = record (set_table s i (clear_table (s.tables i))) {
  current_table = i;
  overflow = 0;
  lock = 0;
}

clear-emptied :
    (s : CallTraceStorage) (i : ℕ)
    → s.lock ≡ 0
    → oldest s.tables s.allocated s.current_table ≡ some i
    → clear s ≡ some (emptied s i)
unfolding clear compare_and_swap
clear-emptied s i free run = rw free (rw run refl)

oldest-found :
    (s : CallTraceStorage) (v : IsValid s) (fuel i : ℕ)
    → i < fuel
    → i < s.allocated
    → (b : ℕ) × (oldest s.tables fuel i ≡ some b) × ((s.tables b).prev ≡ none) × (b ≤ i)
unfolding oldest
oldest-found s v zero i lt below = absurd (omega arith)
oldest-found s v (suc fuel) i lt below = elim (Option-cases (s.tables i).prev) [
  | inl e ↦ (i, rw e, e, omega arith)
  | inr (p, e) ↦
      let lower = v.older i p below e in
      let (b, run, bottom, le) = oldest-found s v fuel p (omega arith) (omega arith) in
      (b, rw e run, bottom, omega arith)
]

-- A storage without a trace.
pub record IsCleared (s : CallTraceStorage) : Type 0 where
  pub valid : IsValid s
  pub single : (s.tables s.current_table).prev ≡ none
  pub no_overflow : s.overflow ≡ 0
  pub lock_free : s.lock ≡ 0
  pub no_traces : (hash : ℕ) → find_call_trace (s.tables s.current_table) hash ≡ none

no_trace_at : (t : LongHashTable) (p : Probe) → trace_at (clear_table t) p ≡ none
unfolding trace_at clear_table
no_trace_at t (hit slot) = refl
no_trace_at t (vacant slot) = refl
no_trace_at t exhausted = refl

emptied-IsCleared :
    (s : CallTraceStorage) (v : IsValid s) (i : ℕ)
    → i < s.allocated
    → (s.tables i).prev ≡ none
    → IsCleared (emptied s i)
emptied-IsCleared s v i lt bottom =
    let w =
      set_table-IsValid s i (clear_table (s.tables i)) v (unfold clear_table in refl)
        (unfold clear_table in refl) in
    record {
      valid = record { current = lt; older = w.older; slots = w.slots };
      single = rw (==_refl i) (unfold clear_table in bottom);
      no_overflow = refl;
      lock_free = refl;
      no_traces = λ hash. rw (==_refl i) (
          unfold find_call_trace in
          no_trace_at (s.tables i) (search_table (clear_table (s.tables i)) hash));
    }

-- Clearing a valid storage whose lock is free returns: one table is left, which is valid and gives no
-- trace for any hash, the overflow is 0, and the lock is free again.
pub clear-IsCleared :
    (s : CallTraceStorage)
    → IsValid s
    → s.lock ≡ 0
    → (s' : CallTraceStorage) × (clear s ≡ some s') × IsCleared s'
clear-IsCleared s v free =
    let (i, run, bottom, le) = oldest-found s v s.allocated s.current_table v.current v.current in
    (
      emptied s i,
      clear-emptied s i free run,
      emptied-IsCleared s v i (omega (arith, v.current)) bottom,
    )
