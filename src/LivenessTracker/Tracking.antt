-- ===== src/LivenessTracker/Tracking.antt =====
-- `track` against the list of entries.
use java_profiler.Base.{
  ℕ, ◌+◌, ◌*◌, ◌≤◌, ◌<◌, min, Bool, true, false, ◌&&◌, ◌==◌, ltb, if◌then◌else◌, List, [], ◌∷◌,
  ◌++◌, Option, some, ◌≡◌, refl, ◌∙◌, arith, Bool-cases, inl, inr,
}
use java_profiler.LivenessTracker.Survivors.{survivors, entries, cleanup_table-survivors}
use java_profiler.LivenessTracker.{
  TrackingEntry, LivenessTracker, cleanup_table, resize, deleted, add_again, grow_or_drop,
  make_room, add_entry, new_entry, track_ref, track,
}
use java_profiler.LivenessTracker.Room.{
  IsValid, less_small, is_on, Adds, with_entry, with_entry-Adds, try_add-room, try_add-full, due,
  cleanup_table-Same, cleanup_table-IsValid, resize-grown,
}

module _ {E D : Type 0} where
  -- A table that has room again.
  resize-room :
      (e : TrackingEntry E) (t : LivenessTracker E D)
      → IsValid t
      → t.table_cap < t.table_max_cap
      → (t' : LivenessTracker E D) × (add_again true e (resize true t) ≡ some t')
        × Adds e (entries t) t'
  unfolding add_again
  resize-room e t v lt =
      let cap = min (t.table_cap * 2) t.table_max_cap in
      let r = record t { table_cap = cap; allocated = cap } in
      let valid : IsValid r = record {
        some_cap = omega (arith, v.some_cap);
        cap_le = omega arith;
        max_le = v.max_le;
        room = omega arith;
        fits = omega (arith, v.fits);
      } in
      let room : r.table_size < r.table_cap = omega (arith, v.some_cap, v.fits) in
      (
        with_entry e r,
        rw (resize-grown true t v lt, try_add-room e r valid room) refl,
        with_entry-Adds e r valid room,
      )

  -- A full table after its clean-up, with the new entry where there is room for more.
  abbrev pub made_room :
      (is_live : ℕ → Bool) (has_lock : Bool)
      → TrackingEntry E
      → LivenessTracker E D
      → List (TrackingEntry E)
  made_room is_live has_lock e t =
      let kept = survivors is_live t.last_gc_epoch t.gc_epoch (entries t) in
      if ltb t.table_cap t.table_max_cap && has_lock then kept ++ (e ∷ []) else kept

  -- The entries that a call of `track` with an entry leaves.
  abbrev pub tracked :
      (is_live : ℕ → Bool) (has_lock has_lock_again : Bool)
      → TrackingEntry E
      → LivenessTracker E D
      → List (TrackingEntry E)
  tracked is_live has_lock has_lock_again e t =
      if has_lock
      then (if ltb t.table_size t.table_cap
          then entries t ++ (e ∷ [])
          else made_room is_live has_lock_again e t)
      else entries t

  abbrev Leaves : Option (LivenessTracker E D) → List (TrackingEntry E) → Type 0
  Leaves o es = (t' : LivenessTracker E D) × (o ≡ some t') × IsValid t' × (entries t' ≡ es)

  deleted-IsValid : (t : LivenessTracker E D) → IsValid t → IsValid (deleted t)
  deleted-IsValid t v = record {
    some_cap = v.some_cap;
    cap_le = v.cap_le;
    max_le = v.max_le;
    room = v.room;
    fits = v.fits;
  }

  resized-IsValid :
      (t : LivenessTracker E D)
      → IsValid t
      → t.table_cap < t.table_max_cap
      → IsValid (resize true t) × (entries (resize true t) ≡ entries t)
  resized-IsValid t v lt = rw (resize-grown true t v lt) (
    record {
      some_cap = omega (arith, v.some_cap);
      cap_le = omega arith;
      max_le = v.max_le;
      room = omega arith;
      fits = omega (arith, v.fits);
    },
    refl,
  )

  add_again-Leaves :
      (has_lock : Bool) (e : TrackingEntry E) (t : LivenessTracker E D)
      → IsValid t
      → t.table_cap < t.table_max_cap
      → Leaves
          (add_again has_lock e (resize true t))
          (if has_lock then entries t ++ (e ∷ []) else entries t)
  add_again-Leaves true e t v lt =
      let (t', ran, a) = resize-room e t v lt in (t', ran, a.valid, a.same)
  add_again-Leaves false e t v lt =
      let (valid, same) = resized-IsValid t v lt in
      (
        deleted (resize true t),
        unfold add_again in refl,
        deleted-IsValid (resize true t) valid,
        same,
      )

  grow_or_drop-Leaves :
      (has_lock : Bool) (e : TrackingEntry E) (t : LivenessTracker E D)
      → IsValid t
      → Leaves
          (grow_or_drop true has_lock e t)
          (if ltb t.table_cap t.table_max_cap && has_lock then entries t ++ (e ∷ []) else entries t)
  unfolding grow_or_drop
  grow_or_drop-Leaves has_lock e t v =
      let test =
        less_small t.table_cap t.table_max_cap (omega (arith, v.cap_le, v.max_le))
          (omega (arith, v.max_le)) in
      elim (Bool-cases (ltb t.table_cap t.table_max_cap)) [
        | inl q ↦
            let lt : t.table_cap < t.table_max_cap = ground arith in
            rw (test, q) (add_again-Leaves has_lock e t v lt)
        | inr q ↦ rw (test, q) (t, refl, v, refl)
      ]

  make_room-Leaves :
      (is_live : ℕ → Bool) (has_lock : Bool) (e : TrackingEntry E) (t : LivenessTracker E D)
      → IsValid t
      → Leaves (make_room is_live true has_lock e t) (made_room is_live has_lock e t)
  make_room-Leaves is_live has_lock e t v =
      let c = cleanup_table true is_live t in
      let s = cleanup_table-Same is_live t in
      let (same, _, _) = cleanup_table-survivors true is_live t (due t) in
      let (t', ran, valid, left) =
        grow_or_drop-Leaves has_lock e c (cleanup_table-IsValid is_live t v) in
      (t', unfold make_room in ran, valid, left ∙ rw (same, s.cap, s.max_cap) refl)

  add_entry-Leaves :
      (is_live : ℕ → Bool) (has_lock has_lock_again : Bool) (e : TrackingEntry E)
      (t : LivenessTracker E D)
      → IsValid t
      → Leaves
          (add_entry is_live true has_lock has_lock_again e t)
          (tracked is_live has_lock has_lock_again e t)
  unfolding add_entry
  add_entry-Leaves is_live false has_lock_again e t v = (deleted t, refl, deleted-IsValid t v, refl)
  add_entry-Leaves is_live true has_lock_again e t v =
      elim (Bool-cases (ltb t.table_size t.table_cap)) [
        | inl q ↦
            let lt : t.table_size < t.table_cap = ground arith in
            let a = with_entry-Adds e t v lt in
            rw (try_add-room e t v lt, q) (with_entry e t, refl, a.valid, a.same)
        | inr q ↦
            let full : t.table_size ≡ t.table_cap =
              let over : t.table_cap ≤ t.table_size = ground arith in omega (arith, v.fits) in
            rw (try_add-full e t v full, q) (make_room-Leaves is_live has_lock_again e t v)
      ]

  -- Where the tracker is on, its table is valid, memory does not run out and the sample counts, tracking an
  -- object with a weak reference returns and leaves a valid table: a table with room has the entry at its
  -- end; a full one is cleaned up first, and then has the entry just where its capacity is below the bound
  -- and the lock is free; without the lock the table stays as it was.
  pub track-tracked :
      (is_live : ℕ → Bool) (has_lock has_lock_again : Bool) (ref call_trace_id : ℕ) (rest : E)
      (t : LivenessTracker E D)
      → IsValid t
      → t.enabled ≡ true
      → Leaves
          (track is_live true has_lock has_lock_again false (some ref) call_trace_id rest t)
          (tracked is_live has_lock has_lock_again (new_entry ref call_trace_id rest) t)
  unfolding track track_ref
  track-tracked is_live has_lock has_lock_again ref call_trace_id rest t v on =
      let some_max : (t.table_max_cap == 0) ≡ false =
        let bound : 0 < t.table_max_cap = omega (arith, v.some_cap, v.cap_le) in ground arith in
      let counts = is_on t.enabled (t.table_max_cap == 0) on some_max in
      rw counts (
        add_entry-Leaves is_live has_lock has_lock_again (new_entry ref call_trace_id rest)
          (record t { weak_refs = t.weak_refs + 1 })
          (record {
            some_cap = v.some_cap;
            cap_le = v.cap_le;
            max_le = v.max_le;
            room = v.room;
            fits = v.fits;
          }))
