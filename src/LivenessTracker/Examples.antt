-- ===== src/LivenessTracker/Examples.antt =====
-- A small table, and the theorems at it.
use java_profiler.Base.{
  ℕ, ◌+◌, ◌^◌, ◌≤◌, ◌≡◌, refl, Bool, true, false, ◌==◌, not, [], ◌∷◌, none, some, arith,
}
use java_profiler.Arguments.{Arguments, initial}
use java_profiler.LivenessTracker.Faults.{track_realloc_fails}
use java_profiler.LivenessTracker.Initialize.{required_capacity}
use java_profiler.LivenessTracker.Survivors.{survivors, entries, cleanup_table-survivors}
use java_profiler.LivenessTracker.Tracking.{tracked, track-tracked}
use java_profiler.LivenessTracker.Room.{IsValid}
use java_profiler.LivenessTracker.{
  TrackingEntry, LivenessTracker, cleanup_table, new_entry, track, survives,
}

-- Object 1 is dead by now.
abbrev lives : ℕ → Bool
lives ref = not (ref == 1)

abbrev all_live : ℕ → Bool
all_live ref = true

abbrev two_entries : ℕ → TrackingEntry ℕ
two_entries j = new_entry (j + 1) 7 j

abbrev tracker : (cap max_cap : ℕ) → LivenessTracker ℕ ℕ
tracker cap max_cap = record {
  initialized = true;
  stored_error = false;
  enabled = true;
  table_size = 2;
  table_cap = cap;
  table_max_cap = max_cap;
  table = two_entries;
  allocated = cap;
  weak_refs = 2;
  subsample_ratio = 100;
  record_heap_usage = false;
  gc_epoch = 3;
  last_gc_epoch = 1;
  used_after_last_gc = 0;
}

one_kept :
    entries (cleanup_table true lives (tracker 2 2))
    ≡ record { ref = some 2; age = 2; call_trace_id = 7; rest = 1 } ∷ []
unfolding cleanup_table
one_kept = refl

small-IsValid : IsValid (tracker 2 4)
small-IsValid = record {
  some_cap = omega arith;
  cap_le = omega arith;
  max_le = omega arith;
  room = omega arith;
  fits = omega arith;
}

bound-IsValid : IsValid (tracker 2 2)
bound-IsValid = record {
  some_cap = omega arith;
  cap_le = omega arith;
  max_le = omega arith;
  room = omega arith;
  fits = omega arith;
}

cleanup_table-survivors_example :
    (entries (cleanup_table true lives (tracker 2 4)) ≡ survivors lives 1 3 (entries (tracker 2 4)))
    × ((cleanup_table true lives (tracker 2 4)).last_gc_epoch ≡ 3)
    × ((cleanup_table true lives (tracker 2 4)).table_size ≤ 2)
cleanup_table-survivors_example = cleanup_table-survivors true lives (tracker 2 4) refl

track-tracked_example :
    (t' : LivenessTracker ℕ ℕ) × (track lives true true true false (some 9) 5 0 (tracker 2 4)
      ≡ some t')
    × IsValid t'
    × (entries t' ≡ tracked lives true true (new_entry 9 5 0) (tracker 2 4))
track-tracked_example = track-tracked lives true true 9 5 0 (tracker 2 4) small-IsValid refl

track_realloc_fails_example : track all_live false true true false (some 9) 5 0 (tracker 2 4) ≡ none
track_realloc_fails_example =
    track_realloc_fails all_live 9 5 0 (tracker 2 4) small-IsValid refl refl refl (omega arith)
      (unfold survives in (refl, (refl, tt)))

-- Options that track every 512 KiB of a heap of 1 GiB.
abbrev options : Arguments ℕ
options = record (initial 100 false) { memory = 524288; record_liveness = true }

abbrev fresh : LivenessTracker ℕ ℕ
fresh = record (tracker 0 0) { initialized = false; enabled = false; table_size = 0 }

-- A heap of 4 GiB with the interval 0 asks for no entries at all.
capacity_wraps : required_capacity (2 ^ 32) 0 ≡ 0
unfolding required_capacity
capacity_wraps = refl
