-- ===== src/LivenessTracker.antt =====
-- livenessTracker.cpp and livenessTracker.h: the table of the allocation samples whose objects are still
-- alive, with one caller at a time. The answers of the virtual machine are parameters: whether the object
-- of a weak reference lives, and the references that it makes. `E` holds the fields of an entry that the
-- tracker only copies, and `D` is the type `double`.
pub mod Initialize
pub mod Flush
pub mod Survivors
pub mod Room
pub mod Tracking
pub mod Faults
pub mod Start
mod Examples
use java_profiler.Base.{
  ℕ, zero, suc, ◌+◌, ◌-◌, ◌*◌, ◌%◌, ◌^◌, min, Bool, true, false, ◌&&◌, ◌||◌, not, ◌==◌, ltb, leb,
  if◌then◌else◌, update, List, [], ◌∷◌, Option, none, some, ◌>>=◌,
}

-- A reference that is NULL is `none`.
pub record TrackingEntry (E : Type 0) : Type 0 where
  pub ref : Option ℕ
  pub age : ℕ
  pub call_trace_id : ℕ
  pub rest : E

-- `allocated` counts the entries that `_table` has room for, and `weak_refs` the references made and not
-- deleted; `stored_error` tells whether `_stored_error` is an error. The capacities are patterns of 32 bits.
pub record LivenessTracker (E D : Type 0) : Type 0 where
  pub initialized : Bool
  pub stored_error : Bool
  pub enabled : Bool
  pub table_size : ℕ
  pub table_cap : ℕ
  pub table_max_cap : ℕ
  pub table : ℕ → TrackingEntry E
  pub allocated : ℕ
  pub weak_refs : ℕ
  pub subsample_ratio : D
  pub record_heap_usage : Bool
  pub gc_epoch : ℕ
  pub last_gc_epoch : ℕ
  pub used_after_last_gc : ℕ

-- `a < b` for two `int`
unfoldable pub less : ℕ → ℕ → Bool
less a b = ltb ((a + 2 ^ 31) % 2 ^ 32) ((b + 2 ^ 31) % 2 ^ 32)

unfoldable pub min_int : ℕ → ℕ → ℕ
unfolding less
min_int a b = if less b a then b else a

-- `age += epoch_diff`, where the difference is cut to an `int`.
unfoldable pub aged : (age current target : ℕ) → ℕ
aged age current target =
    let diff = (target + 2 ^ 64 - current) % 2 ^ 32 in
    (age + (if ltb diff (2 ^ 31) then diff else diff + 2 ^ 64 - 2 ^ 32)) % 2 ^ 64

unfoldable pub survives : (is_live : ℕ → Bool) → Option ℕ → Bool
survives is_live none = false
survives is_live (some ref) = is_live ref

-- Deleting a reference that is NULL does nothing.
unfoldable pub delete_ref : Option ℕ → ℕ → ℕ
delete_ref none weak_refs = weak_refs
delete_ref (some ref) weak_refs = weak_refs - 1

-- The table in the loop of `cleanup_table`, with the entries kept so far.
pub record Sweep (E : Type 0) : Type 0 where
  pub table : ℕ → TrackingEntry E
  pub newsz : ℕ
  pub weak_refs : ℕ

module _ {E : Type 0} where
  -- `ref = nullptr; call_trace_id = 0`
  abbrev pub cleared : TrackingEntry E → TrackingEntry E
  cleared e = record e { ref = none; call_trace_id = 0 }

  abbrev pub new_entry : (ref : ℕ) → (call_trace_id : ℕ) → E → TrackingEntry E
  new_entry ref call_trace_id rest = record {
    ref = some ref;
    age = 0;
    call_trace_id = call_trace_id;
    rest = rest;
  }

  -- The move of entry `i` to `newsz`.
  unfoldable pub moved_down : (i newsz : ℕ) → (ℕ → TrackingEntry E) → ℕ → TrackingEntry E
  moved_down i newsz table =
      if newsz == i then table else update (update table newsz (table i)) i (cleared (table i))

  unfoldable pub grow_older :
      (newsz current target : ℕ) → (ℕ → TrackingEntry E) → ℕ → TrackingEntry E
  unfolding aged
  grow_older newsz current target table =
      let e = table newsz in update table newsz (record e { age = aged e.age current target })

  -- A round of the loop of `cleanup_table`.
  unfoldable pub sweep_entry : (is_live : ℕ → Bool) → (current target i : ℕ) → Sweep E → Sweep E
  unfolding survives delete_ref moved_down grow_older
  sweep_entry is_live current target i s =
      if survives is_live (s.table i).ref
      then record s {
        table = grow_older s.newsz current target (moved_down i s.newsz s.table);
        newsz = s.newsz + 1;
      }
      else record s {
        table = update s.table i (cleared (s.table i));
        weak_refs = delete_ref (s.table i).ref s.weak_refs;
      }

  -- The loop, with `left` entries from the one at `i` on.
  unfoldable pub sweep : (is_live : ℕ → Bool) → (current target left i : ℕ) → Sweep E → Sweep E
  unfolding sweep_entry
  sweep is_live current target zero i s = s
  sweep is_live current target (suc left) i s =
      sweep is_live current target left (i + 1) (sweep_entry is_live current target i s)

module _ {E D : Type 0} where
  unfoldable pub swept : (is_live : ℕ → Bool) → LivenessTracker E D → LivenessTracker E D
  unfolding sweep
  swept is_live t =
      let s =
        sweep is_live t.last_gc_epoch t.gc_epoch t.table_size 0
          (record { table = t.table; newsz = 0; weak_refs = t.weak_refs }) in
      record t {
        table = s.table;
        table_size = s.newsz;
        weak_refs = s.weak_refs;
        last_gc_epoch = t.gc_epoch;
      }

  unfoldable pub cleanup_table :
      (forced : Bool) → (is_live : ℕ → Bool) → LivenessTracker E D → LivenessTracker E D
  unfolding swept
  cleanup_table forced is_live t =
      if t.gc_epoch == t.last_gc_epoch && not forced then t else swept is_live t

  unfoldable pub store_used : Option ℕ → LivenessTracker E D → LivenessTracker E D
  store_used none t = t
  store_used (some used) t = record t { used_after_last_gc = used }

  -- `onGC`; `used` is the use of the heap, which is stored where the last collection's is not known.
  unfoldable pub on_gc : (used : Option ℕ) → LivenessTracker E D → LivenessTracker E D
  unfolding store_used
  on_gc used t =
      if t.initialized
      then store_used used (record t { gc_epoch = (t.gc_epoch + 1) % 2 ^ 64 })
      else t

  -- An entry that is written behind the room of `_table` is `none`.
  unfoldable pub put_entry : TrackingEntry E → LivenessTracker E D → Option (LivenessTracker E D)
  put_entry e t =
      if ltb t.table_size t.allocated
      then some (record t { table = update t.table t.table_size e; table_size = t.table_size + 1 })
      else none

  -- The reservation of an index, and the entry where it is below the capacity; the Boolean tells that the
  -- table was full.
  unfoldable pub try_add :
      TrackingEntry E → LivenessTracker E D → Option (LivenessTracker E D × Bool)
  unfolding less put_entry
  try_add e t =
      if less t.table_size t.table_cap
      then (do t' ← put_entry e t; some (t', false))
      else some (t, t.table_size == t.table_cap)

  -- The assignment of the new capacity, and the table where `realloc` succeeds.
  unfoldable pub resize : (realloc_succeeds : Bool) → LivenessTracker E D → LivenessTracker E D
  unfolding min_int
  resize realloc_succeeds t =
      let newcap = min_int (t.table_cap * 2 % 2 ^ 32) t.table_max_cap in
      if t.table_cap == newcap then t else record t {
        table_cap = newcap;
        allocated = if realloc_succeeds then newcap else t.allocated;
      }

  abbrev pub deleted : LivenessTracker E D → LivenessTracker E D
  deleted t = record t { weak_refs = t.weak_refs - 1 }

  -- The part behind `retry` when it is passed again; `has_lock` is the answer of `tryLockShared`.
  unfoldable pub add_again :
      (has_lock : Bool) → TrackingEntry E → LivenessTracker E D → Option (LivenessTracker E D)
  unfolding try_add
  add_again has_lock e t =
      if has_lock then (do (t', full) ← try_add e t; some t') else some (deleted t)

  -- The table that is full is cleaned up by now.
  unfoldable pub grow_or_drop :
      (realloc_succeeds has_lock : Bool)
      → TrackingEntry E
      → LivenessTracker E D
      → Option (LivenessTracker E D)
  unfolding less resize add_again
  grow_or_drop realloc_succeeds has_lock e t =
      if less t.table_cap t.table_max_cap
      then add_again has_lock e (resize realloc_succeeds t)
      else some t

  -- What follows at a table that was full.
  unfoldable pub make_room :
      (is_live : ℕ → Bool) (realloc_succeeds has_lock : Bool)
      → TrackingEntry E
      → LivenessTracker E D
      → Option (LivenessTracker E D)
  unfolding cleanup_table grow_or_drop
  make_room is_live realloc_succeeds has_lock e t =
      grow_or_drop realloc_succeeds has_lock e (cleanup_table true is_live t)

  unfoldable pub add_entry :
      (is_live : ℕ → Bool) (realloc_succeeds has_lock has_lock_again : Bool)
      → TrackingEntry E
      → LivenessTracker E D
      → Option (LivenessTracker E D)
  unfolding try_add make_room
  add_entry is_live realloc_succeeds has_lock has_lock_again e t =
      if has_lock
      then (do
        (t', full) ← try_add e t
        if full then make_room is_live realloc_succeeds has_lock_again e t' else some t')
      else some (deleted t)

  -- An object to which the machine gives a weak reference, or not.
  unfoldable pub track_ref :
      (is_live : ℕ → Bool) (realloc_succeeds has_lock has_lock_again : Bool) (ref : Option ℕ)
      (call_trace_id : ℕ)
      → E
      → LivenessTracker E D
      → Option (LivenessTracker E D)
  unfolding add_entry
  track_ref is_live realloc_succeeds has_lock has_lock_again none call_trace_id rest t = some t
  track_ref is_live realloc_succeeds has_lock has_lock_again (some ref) call_trace_id rest t =
      add_entry is_live realloc_succeeds has_lock has_lock_again (new_entry ref call_trace_id rest)
        (record t { weak_refs = t.weak_refs + 1 })

  -- `track`; `left_out` tells that the sample is one that `_subsample_ratio` leaves out.
  unfoldable pub track :
      (is_live : ℕ → Bool) (realloc_succeeds has_lock has_lock_again left_out : Bool)
      (ref : Option ℕ) (call_trace_id : ℕ)
      → E
      → LivenessTracker E D
      → Option (LivenessTracker E D)
  unfolding track_ref
  track is_live realloc_succeeds has_lock has_lock_again left_out ref call_trace_id rest t =
      if not t.enabled || t.table_max_cap == 0 || left_out
      then some t
      else track_ref is_live realloc_succeeds has_lock has_lock_again ref call_trace_id rest t
