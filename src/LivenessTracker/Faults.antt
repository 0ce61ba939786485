-- ===== src/LivenessTracker/Faults.antt =====
-- What `track` does where memory runs out, and where a full table may not grow.
use java_profiler.Base.{
  ℕ, suc, ◌+◌, ◌*◌, ◌<◌, min, Bool, true, false, ◌==◌, ltb, length, All, List, [], ◌∷◌, none, some,
  ◌≡◌, refl, ap, ◌∙◌, arith,
}
use java_profiler.Base.Segments.{length-segment}
use java_profiler.LivenessTracker.Survivors.{survivors, entries, cleanup_table-survivors}
use java_profiler.LivenessTracker.Room.{
  IsValid, less_small, try_add-full, due, cleanup_table-Same, cleanup_table-IsValid, resize-grown,
  is_on,
}
use java_profiler.LivenessTracker.{
  TrackingEntry, LivenessTracker, less, survives, cleanup_table, resize, add_again, grow_or_drop,
  make_room, add_entry, new_entry, track_ref, track,
}

module _ {E : Type 0} (is_live : ℕ → Bool) where
  -- The object of the entry lives.
  abbrev pub Lives : TrackingEntry E → Type 0
  Lives e = survives is_live e.ref ≡ true

  length-survivors-All :
      (current target : ℕ) (es : List (TrackingEntry E))
      → All Lives es
      → length (survivors is_live current target es) ≡ length es
  length-survivors-All current target [] _ = refl
  length-survivors-All current target (e ∷ es) (h, hs) =
      rw h (ap suc (length-survivors-All current target es hs))

module _ {E D : Type 0} where
  -- The second attempt at a table that the failed `realloc` left too small.
  add_again-outside :
      (e : TrackingEntry E) (t : LivenessTracker E D)
      → IsValid t
      → t.table_cap < t.table_max_cap
      → t.table_size ≡ t.allocated
      → t.table_size ≡ t.table_cap
      → add_again true e (resize false t) ≡ none
  unfolding add_again
  add_again-outside e t v lt full size =
      let cap = min (t.table_cap * 2) t.table_max_cap in
      let free : less t.table_size cap ≡ true =
        less_small t.table_size cap (omega (arith, v.max_le, v.cap_le)) (omega (arith, v.max_le))
        ∙ (let below : t.table_size < cap = omega (arith, v.some_cap) in ground arith) in
      let outside : ltb t.table_size t.allocated ≡ false = ground arith in
      rw (resize-grown false t v lt) (rw (free, outside) refl)

  grow_or_drop-outside :
      (e : TrackingEntry E) (t : LivenessTracker E D)
      → IsValid t
      → t.table_cap < t.table_max_cap
      → t.table_size ≡ t.allocated
      → t.table_size ≡ t.table_cap
      → grow_or_drop false true e t ≡ none
  unfolding grow_or_drop
  grow_or_drop-outside e t v lt full size =
      let free : less t.table_cap t.table_max_cap ≡ true =
        less_small t.table_cap t.table_max_cap (omega (arith, v.max_le)) (omega (arith, v.max_le))
        ∙ ground arith in
      rw free (add_again-outside e t v lt full size)

  cleanup_table-size :
      (is_live : ℕ → Bool) (t : LivenessTracker E D)
      → All (Lives is_live) (entries t)
      → (cleanup_table true is_live t).table_size ≡ t.table_size
  cleanup_table-size is_live t all =
      let c = cleanup_table true is_live t in
      let (same, _, _) = cleanup_table-survivors true is_live t (due t) in
      omega (
        arith,
        length-segment c.table 0 c.table_size,
        ap length same,
        length-survivors-All is_live t.last_gc_epoch t.gc_epoch (entries t) all,
        length-segment t.table 0 t.table_size,
      )

  make_room-outside :
      (is_live : ℕ → Bool) (e : TrackingEntry E) (t : LivenessTracker E D)
      → IsValid t
      → t.table_cap < t.table_max_cap
      → t.table_size ≡ t.table_cap
      → t.allocated ≡ t.table_cap
      → All (Lives is_live) (entries t)
      → make_room is_live false true e t ≡ none
  unfolding make_room
  make_room-outside is_live e t v lt full exact all =
      let c = cleanup_table true is_live t in
      let s = cleanup_table-Same is_live t in
      let size = cleanup_table-size is_live t all in
      grow_or_drop-outside e c (cleanup_table-IsValid is_live t v) (omega (arith, s.cap, s.max_cap))
        (omega (arith, size, s.allocated)) (omega (arith, size, s.cap))

  -- At a full table there is nothing to do but to make room.
  add_entry-full :
      (is_live : ℕ → Bool) (ok has_lock_again : Bool) (e : TrackingEntry E)
      (t : LivenessTracker E D)
      → IsValid t
      → t.table_size ≡ t.table_cap
      → add_entry is_live ok true has_lock_again e t ≡ make_room is_live ok has_lock_again e t
  unfolding add_entry
  add_entry-full is_live ok has_lock_again e t v full = rw (try_add-full e t v full) refl

  abbrev counted : LivenessTracker E D → LivenessTracker E D
  counted t = record t { weak_refs = t.weak_refs + 1 }

  counted-IsValid : (t : LivenessTracker E D) → IsValid t → IsValid (counted t)
  counted-IsValid t v = record {
    some_cap = v.some_cap;
    cap_le = v.cap_le;
    max_le = v.max_le;
    room = v.room;
    fits = v.fits;
  }

  track-full :
      (is_live : ℕ → Bool) (ok has_lock_again : Bool) (ref call_trace_id : ℕ) (rest : E)
      (t : LivenessTracker E D)
      → IsValid t
      → t.enabled ≡ true
      → t.table_size ≡ t.table_cap
      → track is_live ok true has_lock_again false (some ref) call_trace_id rest t
        ≡ make_room is_live ok has_lock_again (new_entry ref call_trace_id rest) (counted t)
  unfolding track track_ref
  track-full is_live ok has_lock_again ref call_trace_id rest t v on full =
      let some_max : (t.table_max_cap == 0) ≡ false =
        let bound : 0 < t.table_max_cap = omega (arith, v.some_cap, v.cap_le) in ground arith in
      let counts = is_on t.enabled (t.table_max_cap == 0) on some_max in
      rw counts (
        add_entry-full is_live ok has_lock_again (new_entry ref call_trace_id rest) (counted t)
          (counted-IsValid t v) full)

  -- Where the table is full, all its objects live and its capacity may grow, but `realloc` fails, tracking
  -- an object writes an entry outside of the table.
  pub track_realloc_fails :
      (is_live : ℕ → Bool) (ref call_trace_id : ℕ) (rest : E) (t : LivenessTracker E D)
      → IsValid t
      → t.enabled ≡ true
      → t.table_size ≡ t.table_cap
      → t.allocated ≡ t.table_cap
      → t.table_cap < t.table_max_cap
      → All (Lives is_live) (entries t)
      → track is_live false true true false (some ref) call_trace_id rest t ≡ none
  track_realloc_fails is_live ref call_trace_id rest t v on full exact lt all =
      track-full is_live false true ref call_trace_id rest t v on full
      ∙ make_room-outside is_live (new_entry ref call_trace_id rest) (counted t)
          (counted-IsValid t v) lt full exact all

  grow_or_drop-drops :
      (ok has_lock : Bool) (e : TrackingEntry E) (t : LivenessTracker E D)
      → IsValid t
      → t.table_cap ≡ t.table_max_cap
      → grow_or_drop ok has_lock e t ≡ some t
  unfolding grow_or_drop
  grow_or_drop-drops ok has_lock e t v at_max =
      let stays : less t.table_cap t.table_max_cap ≡ false =
        less_small t.table_cap t.table_max_cap (omega (arith, v.max_le)) (omega (arith, v.max_le))
        ∙ ground arith in
      rw stays refl

  -- Where a table is full at the bound of its capacity, tracking an object cleans the table up and drops
  -- the object, whether there is room by then or not; the weak reference made for it stays.
  pub track_full_at_bound :
      (is_live : ℕ → Bool) (ok has_lock_again : Bool) (ref call_trace_id : ℕ) (rest : E)
      (t : LivenessTracker E D)
      → IsValid t
      → t.enabled ≡ true
      → t.table_size ≡ t.table_cap
      → t.table_cap ≡ t.table_max_cap
      → track is_live ok true has_lock_again false (some ref) call_trace_id rest t
        ≡ some (cleanup_table true is_live (record t { weak_refs = t.weak_refs + 1 }))
  track_full_at_bound is_live ok has_lock_again ref call_trace_id rest t v on full at_max =
      let c = cleanup_table true is_live (counted t) in
      let s = cleanup_table-Same is_live (counted t) in
      track-full is_live ok has_lock_again ref call_trace_id rest t v on full
      ∙ unfold make_room in
        grow_or_drop-drops ok has_lock_again (new_entry ref call_trace_id rest) c
          (cleanup_table-IsValid is_live (counted t) (counted-IsValid t v))
          (omega (arith, s.cap, s.max_cap))
