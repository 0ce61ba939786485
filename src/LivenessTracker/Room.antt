-- ===== src/LivenessTracker/Room.antt =====
-- The table of the tracked objects with room, full, cleaned up and grown.
use java_profiler.Base.{
  ℕ, suc, ◌+◌, ◌*◌, ◌%◌, ◌^◌, ◌≤◌, ◌<◌, min, Bool, true, false, ◌&&◌, ◌||◌, not, ◌==◌, ==_refl, ltb,
  if◌then◌else◌, update, List, [], ◌∷◌, ◌++◌, some, ◌≡◌, refl, ◌∙◌, arith, Bool-cases, inl, inr,
}
use java_profiler.Base.Segments.{segment_ext, segment_last}
use java_profiler.LivenessTracker.Survivors.{entries, cleanup_table-survivors}
use java_profiler.LivenessTracker.{
  TrackingEntry, LivenessTracker, less, min_int, cleanup_table, try_add, resize,
}

-- A table that can be tracked in: the capacity is allocated and not over its bound, and holds the entries.
pub record IsValid {E D : Type 0} (t : LivenessTracker E D) : Type 0 where
  pub some_cap : 0 < t.table_cap
  pub cap_le : t.table_cap ≤ t.table_max_cap
  pub max_le : t.table_max_cap ≤ 262144
  pub room : t.table_cap ≤ t.allocated
  pub fits : t.table_size ≤ t.table_cap

pub less_small : (a b : ℕ) → a < 2 ^ 31 → b < 2 ^ 31 → less a b ≡ ltb a b
unfolding less
less_small a b ha hb =
    let ea : (a + 2 ^ 31) % 2 ^ 32 ≡ a + 2 ^ 31 = omega arith in
    let eb : (b + 2 ^ 31) % 2 ^ 32 ≡ b + 2 ^ 31 = omega arith in rw (ea, eb) (ground arith)

min_int-small : (a b : ℕ) → a < 2 ^ 31 → b < 2 ^ 31 → min_int a b ≡ min a b
unfolding min_int
min_int-small a b ha hb = rw (less_small b a hb ha) (ground arith)

pub is_on :
    (enabled none_kept : Bool)
    → enabled ≡ true
    → none_kept ≡ false
    → (not enabled || none_kept || false) ≡ false
is_on true false on some_max = refl
is_on true true on some_max = absurd (cc)
is_on false none_kept on some_max = absurd (cc)

module _ {E D : Type 0} where
  -- The table with one more entry.
  pub record Adds (e : TrackingEntry E) (es : List (TrackingEntry E)) (t' : LivenessTracker E D)
      : Type 0 where
    pub valid : IsValid t'
    pub same : entries t' ≡ es ++ (e ∷ [])

  abbrev pub with_entry : TrackingEntry E → LivenessTracker E D → LivenessTracker E D
  with_entry e t = record t { table = update t.table t.table_size e; table_size = t.table_size + 1 }

  pub with_entry-Adds :
      (e : TrackingEntry E) (t : LivenessTracker E D)
      → IsValid t
      → t.table_size < t.table_cap
      → Adds e (entries t) (with_entry e t)
  with_entry-Adds e t v lt = record {
    valid = record {
      some_cap = v.some_cap;
      cap_le = v.cap_le;
      max_le = v.max_le;
      room = v.room;
      fits = omega arith;
    };
    same =
        let count : t.table_size + 1 ≡ suc t.table_size = omega arith in
        let start : 0 + t.table_size ≡ t.table_size = omega arith in
        let below =
          segment_ext (update t.table t.table_size e) t.table 0 t.table_size
            (λ j a b. let other : (t.table_size == j) ≡ false = ground arith in rw other) in
        rw count (
          segment_last (update t.table t.table_size e) 0 t.table_size
          ∙ rw (below, start, ==_refl t.table_size) refl);
  }

  pub try_add-room :
      (e : TrackingEntry E) (t : LivenessTracker E D)
      → IsValid t
      → t.table_size < t.table_cap
      → try_add e t ≡ some (with_entry e t, false)
  unfolding try_add
  try_add-room e t v lt =
      let free : less t.table_size t.table_cap ≡ true =
        less_small t.table_size t.table_cap (omega (arith, v.cap_le, v.max_le))
          (omega (arith, v.cap_le, v.max_le))
        ∙ ground arith in
      let inside : ltb t.table_size t.allocated ≡ true =
        let bound : t.table_size < t.allocated = omega (arith, v.room) in ground arith in
      rw (free, inside) refl

  pub try_add-full :
      (e : TrackingEntry E) (t : LivenessTracker E D)
      → IsValid t
      → t.table_size ≡ t.table_cap
      → try_add e t ≡ some (t, true)
  unfolding try_add
  try_add-full e t v full =
      let taken : less t.table_size t.table_cap ≡ false =
        less_small t.table_size t.table_cap (omega (arith, v.cap_le, v.max_le))
          (omega (arith, v.cap_le, v.max_le))
        ∙ ground arith in
      let all : (t.table_size == t.table_cap) ≡ true = ground arith in rw (taken, all) refl

  -- A clean-up that is forced.
  pub due : (t : LivenessTracker E D) → (t.gc_epoch == t.last_gc_epoch && not true) ≡ false
  due t = elim (Bool-cases (t.gc_epoch == t.last_gc_epoch)) [ inl e ↦ rw e | inr e ↦ rw e ]

  pub record Same (t t' : LivenessTracker E D) : Type 0 where
    pub cap : t'.table_cap ≡ t.table_cap
    pub max_cap : t'.table_max_cap ≡ t.table_max_cap
    pub allocated : t'.allocated ≡ t.allocated

  pub cleanup_table-Same :
      (is_live : ℕ → Bool) (t : LivenessTracker E D) → Same t (cleanup_table true is_live t)
  unfolding cleanup_table
  cleanup_table-Same is_live t =
      rw (due t) (record { cap = refl; max_cap = refl; allocated = refl })

  pub cleanup_table-IsValid :
      (is_live : ℕ → Bool) (t : LivenessTracker E D)
      → IsValid t
      → IsValid (cleanup_table true is_live t)
  cleanup_table-IsValid is_live t v =
      let s = cleanup_table-Same is_live t in
      let (_, _, size) = cleanup_table-survivors true is_live t (due t) in
      record {
        some_cap = omega (arith, s.cap, v.some_cap);
        cap_le = omega (arith, s.cap, s.max_cap, v.cap_le);
        max_le = omega (arith, s.max_cap, v.max_le);
        room = omega (arith, s.cap, s.allocated, v.room);
        fits = omega (arith, s.cap, size, v.fits);
      }

  pub resize-grown :
      (ok : Bool) (t : LivenessTracker E D)
      → IsValid t
      → t.table_cap < t.table_max_cap
      → resize ok t ≡ record t {
        table_cap = min (t.table_cap * 2) t.table_max_cap;
        allocated = if ok then min (t.table_cap * 2) t.table_max_cap else t.allocated;
      }
  unfolding resize
  resize-grown ok t v lt =
      let word : t.table_cap * 2 % 2 ^ 32 ≡ t.table_cap * 2 = omega (arith, v.max_le) in
      let cap =
        min_int-small (t.table_cap * 2) t.table_max_cap (omega (arith, v.max_le))
          (omega (arith, v.max_le)) in
      let new : (t.table_cap == min (t.table_cap * 2) t.table_max_cap) ≡ false =
        let apart : t.table_cap < min (t.table_cap * 2) t.table_max_cap =
          omega (arith, v.some_cap) in
        ground arith in
      rw (word, cap, new) refl
