-- ===== src/LivenessTracker/Start.antt =====
-- The table that `start` sets up, and what `flush` records of it.
use java_profiler.Base.{
  ℕ, zero, suc, ◌+◌, ◌/◌, ◌%◌, ◌^◌, ◌≤◌, ◌<◌, min, Bool, true, false, ◌&&◌, ◌||◌, not, ◌==◌, ltb,
  if◌then◌else◌, All, List, [], ◌∷◌, some, ◌≡◌, refl, ap, ◌∙◌, arith, Bool-cases, inl, inr,
}
use java_profiler.Arguments.{Arguments, is_positive_int}
use java_profiler.Base.Segments.{segment}
use java_profiler.LivenessTracker.Faults.{Lives}
use java_profiler.LivenessTracker.Flush.{flush_loop, flush_table, flush}
use java_profiler.LivenessTracker.Initialize.{Result, initialize_table, set_up, initialize, start}
use java_profiler.LivenessTracker.Survivors.{survivors, entries, cleanup_table-survivors}
use java_profiler.LivenessTracker.Room.{IsValid, less_small}
use java_profiler.LivenessTracker.{TrackingEntry, LivenessTracker, min_int, survives, cleanup_table}

min_int-small : (a b : ℕ) → a < 2 ^ 31 → b < 2 ^ 31 → min_int a b ≡ min a b
unfolding min_int
min_int-small a b ha hb = rw (less_small b a hb ha) (ground arith)

module _ {E : Type 0} (is_live : ℕ → Bool) where
  flush_loop-segment :
      (table : ℕ → TrackingEntry E) (left i : ℕ)
      → All (Lives is_live) (segment table i left)
      → flush_loop is_live table left i ≡ segment table i left
  unfolding flush_loop
  flush_loop-segment table zero i _ = refl
  flush_loop-segment table (suc left) i (h, hs) =
      rw h (ap (λ t. table i ∷ t) (flush_loop-segment table left (i + 1) hs))

  survivors-Lives :
      (current target : ℕ) (es : List (TrackingEntry E))
      → All (Lives is_live) (survivors is_live current target es)
  survivors-Lives current target [] = tt
  survivors-Lives current target (e ∷ es) = elim (Bool-cases (survives is_live e.ref)) [
    | inl q ↦ rw q (q, survivors-Lives current target es)
    | inr q ↦ rw q (survivors-Lives current target es)
  ]

if_true {ℓ} : {A : Type ℓ} (b : Bool) (x y : A) → b ≡ true → (if b then x else y) ≡ x
if_true true x y e = refl
if_true false x y e = absurd (cc)

if_false {ℓ} : {A : Type ℓ} (b : Bool) (x y : A) → b ≡ false → (if b then x else y) ≡ y
if_false true x y e = absurd (cc)
if_false false x y e = refl

module _ {E D : Type 0} (tid : E → ℕ) (is_live : ℕ → Bool) (is_last_gc : Bool) (at_last_gc now : ℕ)
    (t : LivenessTracker E D) where
  flush-on :
      t.enabled ≡ true
      → flush tid is_live is_live is_last_gc at_last_gc now t
        ≡ flush_table tid is_live is_live true is_last_gc at_last_gc now t
  unfolding flush
  flush-on on = if_true t.enabled _ _ on

  flush_table-events :
      (flush_table tid is_live is_live true is_last_gc at_last_gc now t).1.events
      ≡ flush_loop is_live
          (cleanup_table false is_live t).table
          (cleanup_table false is_live t).table_size
          0
  unfolding flush_table
  flush_table-events = refl

-- A flush after a collection records just the entries whose objects live, with their ages moved on, where
-- the objects that live when it cleans up are those that live when it records.
pub flush-survivors :
    {E D : Type 0} (tid : E → ℕ) (is_live : ℕ → Bool) (is_last_gc : Bool) (at_last_gc now : ℕ)
    (t : LivenessTracker E D)
    → t.enabled ≡ true
    → (t.gc_epoch == t.last_gc_epoch) ≡ false
    → (flush tid is_live is_live is_last_gc at_last_gc now t).1.events
      ≡ survivors is_live t.last_gc_epoch t.gc_epoch (entries t)
flush-survivors tid is_live is_last_gc at_last_gc now t on new =
    let c = cleanup_table false is_live t in
    let due : (t.gc_epoch == t.last_gc_epoch && not false) ≡ false = rw new refl in
    let (same, _, _) = cleanup_table-survivors false is_live t due in
    let es = survivors is_live t.last_gc_epoch t.gc_epoch (entries t) in
    let live : All (Lives is_live) (entries c) =
      rw same (survivors-Lives is_live t.last_gc_epoch t.gc_epoch (entries t)) in
    ap (λ r. r.1.events) (flush-on tid is_live is_last_gc at_last_gc now t on)
    ∙ flush_table-events tid is_live is_last_gc at_last_gc now t
    ∙ flush_loop-segment is_live c.table c.table_size 0 live
    ∙ same

-- The entries that the whole heap asks for.
abbrev pub wanted : (max_heap sampling_interval : ℕ) → ℕ
wanted max_heap sampling_interval =
    if is_positive_int sampling_interval then max_heap / sampling_interval else max_heap

module _ {E D : Type 0} (max_heap : ℕ) (args : Arguments D) where
  -- The first part of `initialize`, before the table.
  abbrev begun : LivenessTracker E D → LivenessTracker E D
  begun t = record t { enabled = args.gc_generations || args.record_liveness; initialized = true }

  abbrev sized : LivenessTracker E D → LivenessTracker E D
  sized t = (initialize_table (some max_heap) (args.memory % 2 ^ 32) (begun t)).0

  sized-bound :
      (t : LivenessTracker E D)
      → wanted max_heap (args.memory % 2 ^ 32) < 2 ^ 31
      → (sized t).table_max_cap ≡ min 262144 (wanted max_heap (args.memory % 2 ^ 32))
  unfolding initialize_table
  sized-bound t small =
      let q = wanted max_heap (args.memory % 2 ^ 32) in
      let word : q % 2 ^ 32 ≡ q = omega arith in
      ap (λ (x : ℕ). min_int 262144 x) word ∙ min_int-small 262144 q (omega arith) small

  set_up-IsValid :
      (t : LivenessTracker E D)
      → 0 < t.table_max_cap
      → t.table_max_cap ≤ 262144
      → IsValid (set_up true args t).0
  unfolding set_up
  set_up-IsValid t pos le =
      let cap = min_int-small 2048 t.table_max_cap (omega arith) (omega arith) in
      record {
        some_cap = omega (arith, cap);
        cap_le = omega (arith, cap);
        max_le = le;
        room = omega arith;
        fits = omega arith;
      }

  initialize-set_up :
      (hotspot_version : ℕ) (t : LivenessTracker E D)
      → 11 ≤ hotspot_version
      → (args.gc_generations || args.record_liveness) ≡ true
      → t.initialized ≡ false
      → initialize hotspot_version (some max_heap) true true true args t
        ≡ set_up true args (sized t)
  unfolding initialize
  initialize-set_up hotspot_version t new_enough on first =
      let some_on : not (args.gc_generations || args.record_liveness) ≡ false = rw on refl in
      let recent : ltb hotspot_version 11 ≡ false = ground arith in
      if_false (not (args.gc_generations || args.record_liveness)) _ _ some_on
      ∙ if_false t.initialized _ _ first
      ∙ if_false (ltb hotspot_version 11) _ _ recent

  start-initialize :
      (hotspot_version : ℕ) (t : LivenessTracker E D)
      → start hotspot_version (some max_heap) true true true args t ≡ (
        initialize hotspot_version (some max_heap) true true true args t,
        not (initialize hotspot_version (some max_heap) true true true args t).1
            && (initialize hotspot_version (some max_heap) true true true args t).0.enabled,
      )
  unfolding start
  start-initialize hotspot_version t = refl

  pair :
      (t : LivenessTracker E D)
      → (args.gc_generations || args.record_liveness) ≡ true
      → Path
          (Result E D × Bool)
          (
            set_up true args (sized t),
            not (set_up true args (sized t)).1 && (set_up true args (sized t)).0.enabled,
          )
          (((set_up true args (sized t)).0, false), true)
  unfolding set_up initialize_table
  pair t on = ap (λ (b : Bool). (((set_up true args (sized t)).0, false), b)) on

  -- Starting the tracker for the first time with options that ask for it, on a machine of version 11 or
  -- later that knows its heap and its classes and has memory, gives no error and asks for the events of
  -- collections; the table is empty and valid, and its bound is the number of samples that the heap holds,
  -- or 262144 where that is less, as long as this number is positive and an `int`.
  pub start-IsValid :
      (hotspot_version : ℕ) (t : LivenessTracker E D)
      → 11 ≤ hotspot_version
      → (args.gc_generations || args.record_liveness) ≡ true
      → t.initialized ≡ false
      → 0 < wanted max_heap (args.memory % 2 ^ 32)
      → wanted max_heap (args.memory % 2 ^ 32) < 2 ^ 31
      → (t' : LivenessTracker E D) × (start hotspot_version (some max_heap) true true true args t
          ≡ ((t', false), true))
        × IsValid t'
        × (t'.table_max_cap ≡ min 262144 (wanted max_heap (args.memory % 2 ^ 32)))
        × (entries t' ≡ [])
  start-IsValid hotspot_version t new_enough on first some_wanted small =
      let ran = initialize-set_up hotspot_version t new_enough on first in
      let bound = sized-bound t small in
      let t' = (set_up true args (sized t)).0 in
      (
        t',
        start-initialize hotspot_version t ∙ rw ran (pair t on),
        set_up-IsValid (sized t) (omega arith) (omega arith),
        unfold set_up in bound,
        unfold set_up in refl,
      )
