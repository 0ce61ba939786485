-- ===== src/LivenessTracker/Flush.antt =====
-- `flush_table`, `flush` and `stop`: what they record of the entries that live. `tid` is the thread of an
-- entry.
use java_profiler.Base.{
  ℕ, zero, suc, ◌+◌, Bool, true, false, ◌==◌, if◌then◌else◌, List, [], ◌∷◌, Option, none, some,
}
use java_profiler.LivenessTracker.{TrackingEntry, LivenessTracker, survives, cleanup_table}

-- The entries that are recorded, their threads, and the heap usage that is written.
pub record Flushed (E : Type 0) : Type 0 where
  pub events : List (TrackingEntry E)
  pub thread_ids : List ℕ
  pub heap_usage : Option (ℕ × Bool)

-- The heap after the last collection, where that is known, or else as it is now.
unfoldable pub used_heap : (is_last_gc : Bool) (at_last_gc stored now : ℕ) → ℕ × Bool
used_heap is_last_gc at_last_gc stored now =
    let used = if is_last_gc then at_last_gc else stored in
    if used == 0 then (now, false) else (used, is_last_gc)

module _ {E : Type 0} where
  -- The loop, with `left` entries from the one at `i` on; `is_live` is the answer of `NewLocalRef`.
  unfoldable pub flush_loop :
      (is_live : ℕ → Bool) → (ℕ → TrackingEntry E) → (left i : ℕ) → List (TrackingEntry E)
  unfolding survives
  flush_loop is_live table zero i = []
  flush_loop is_live table (suc left) i =
      let rest = flush_loop is_live table left (i + 1) in
      if survives is_live (table i).ref then table i ∷ rest else rest

  abbrev pub threads_of : (E → ℕ) → List (TrackingEntry E) → List ℕ
  threads_of tid [] = []
  threads_of tid (e ∷ es) = tid e.rest ∷ threads_of tid es

  abbrev pub nothing : Flushed E
  nothing = record { events = []; thread_ids = []; heap_usage = none }

module _ {E D : Type 0} (tid : E → ℕ) where
  -- `flush_table`, whose loop may find other objects alive than its clean-up.
  unfoldable pub flush_table :
      (is_live is_live_then : ℕ → Bool) (tracks_threads is_last_gc : Bool) (at_last_gc now : ℕ)
      → LivenessTracker E D
      → LivenessTracker E D × Flushed E
  unfolding cleanup_table flush_loop used_heap
  flush_table is_live is_live_then tracks_threads is_last_gc at_last_gc now t =
      let t' = cleanup_table false is_live t in
      let events = flush_loop is_live_then t'.table t'.table_size 0 in
      (
        t',
        record {
          events = events;
          thread_ids = if tracks_threads then threads_of tid events else [];
          heap_usage =
              if t'.record_heap_usage
              then some (used_heap is_last_gc at_last_gc t'.used_after_last_gc now)
              else none;
        },
      )

  unfoldable pub flush :
      (is_live is_live_then : ℕ → Bool) (is_last_gc : Bool) (at_last_gc now : ℕ)
      → LivenessTracker E D
      → LivenessTracker E D × Flushed E
  unfolding flush_table
  flush is_live is_live_then is_last_gc at_last_gc now t =
      if t.enabled
      then flush_table is_live is_live_then true is_last_gc at_last_gc now t
      else (t, nothing)

  unfoldable pub stop :
      (is_live is_live_again is_live_then : ℕ → Bool) (is_last_gc : Bool) (at_last_gc now : ℕ)
      → LivenessTracker E D
      → LivenessTracker E D × Flushed E
  unfolding cleanup_table flush_table
  stop is_live is_live_again is_live_then is_last_gc at_last_gc now t =
      if t.enabled
      then flush_table is_live_again is_live_then false is_last_gc at_last_gc now
          (cleanup_table false is_live t)
      else (t, nothing)
