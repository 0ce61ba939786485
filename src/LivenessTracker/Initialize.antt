-- ===== src/LivenessTracker/Initialize.antt =====
-- `initialize_table`, `initialize` and `start`. What the virtual machine knows of itself is a parameter:
-- its version, the largest heap, its class `Class` and the method `getName`.
use java_profiler.Base.{
  ℕ, ◌-◌, ◌/◌, ◌%◌, ◌^◌, Bool, true, false, ◌&&◌, ◌||◌, not, ltb, if◌then◌else◌, Option, none, some,
}
use java_profiler.Arguments.{Arguments, is_positive_int}
use java_profiler.LivenessTracker.{LivenessTracker, less, min_int}

abbrev pub max_tracking_table_size : ℕ
max_tracking_table_size = 262144

-- `std::max` of two `int`
unfoldable pub max_int : ℕ → ℕ → ℕ
unfolding less
max_int a b = if less a b then b else a

-- `x / 8` for an `int`
unfoldable pub eighth : ℕ → ℕ
eighth x = if ltb x (2 ^ 31) then x / 8 else (2 ^ 32 - (2 ^ 32 - x) / 8) % 2 ^ 32

-- `max_heap / sampling_interval` as an `int`
unfoldable pub required_capacity : (max_heap sampling_interval : ℕ) → ℕ
unfolding is_positive_int
required_capacity max_heap sampling_interval =
    (if is_positive_int sampling_interval then max_heap / sampling_interval else max_heap) % 2 ^ 32

-- The tracker and whether there is an error.
abbrev pub Result : Type 0 → Type 0 → Type 0
Result E D = LivenessTracker E D × Bool

module _ {E D : Type 0} where
  unfoldable pub initialize_table :
      (max_heap : Option ℕ) (sampling_interval : ℕ) → LivenessTracker E D → Result E D
  unfolding required_capacity min_int max_int eighth
  initialize_table none sampling_interval t = (record t { table_max_cap = 0 }, true)
  initialize_table (some max_heap) sampling_interval t =
      let cap = min_int max_tracking_table_size (required_capacity max_heap sampling_interval) in
      (record t { table_max_cap = cap; table_cap = max_int 2048 (eighth cap) }, false)

  -- Tracking is switched off, and the error is not passed on.
  abbrev pub switched_off : LivenessTracker E D → Result E D
  switched_off t = (record t { table_max_cap = 0; stored_error = false }, false)

  -- The end of `initialize`; `malloc_succeeds` is the answer of `malloc`.
  unfoldable pub set_up : (malloc_succeeds : Bool) → Arguments D → LivenessTracker E D → Result E D
  unfolding min_int
  set_up malloc_succeeds args t =
      let cap = min_int 2048 t.table_max_cap in
      (
        record t {
          subsample_ratio = args.live_samples_ratio;
          table_size = 0;
          table_cap = cap;
          allocated = if malloc_succeeds then cap else 0;
          record_heap_usage = args.record_heap_usage;
          gc_epoch = 0;
          last_gc_epoch = 0;
          stored_error = false;
        },
        false,
      )

  -- The part behind `initialize_table`.
  unfoldable pub with_table :
      (has_class has_method malloc_succeeds : Bool) → Arguments D → Result E D → Result E D
  unfolding set_up
  with_table has_class has_method malloc_succeeds args (t, true) = switched_off t
  with_table has_class has_method malloc_succeeds args (t, false) =
      if has_class && has_method then set_up malloc_succeeds args t else switched_off t

  unfoldable pub initialize_first :
      (hotspot_version : ℕ) (max_heap : Option ℕ) (has_class has_method malloc_succeeds : Bool)
      → Arguments D
      → LivenessTracker E D
      → Result E D
  unfolding initialize_table with_table
  initialize_first hotspot_version max_heap has_class has_method malloc_succeeds args t =
      if ltb hotspot_version 11
      then switched_off t
      else with_table has_class has_method malloc_succeeds args
          (initialize_table max_heap (args.memory % 2 ^ 32) t)

  unfoldable pub initialize :
      (hotspot_version : ℕ) (max_heap : Option ℕ) (has_class has_method malloc_succeeds : Bool)
      → Arguments D
      → LivenessTracker E D
      → Result E D
  unfolding initialize_first
  initialize hotspot_version max_heap has_class has_method malloc_succeeds args t =
      let enabled = args.gc_generations || args.record_liveness in
      let t' = record t { enabled = enabled } in
      if not enabled
      then (t', false)
      else if t.initialized
      then (t', t.stored_error)
      else initialize_first hotspot_version max_heap has_class has_method malloc_succeeds args
          (record t' { initialized = true })

  -- `start`: the tracker, whether there is an error, and whether the events of collections are asked for.
  unfoldable pub start :
      (hotspot_version : ℕ) (max_heap : Option ℕ) (has_class has_method malloc_succeeds : Bool)
      → Arguments D
      → LivenessTracker E D
      → Result E D × Bool
  unfolding initialize
  start hotspot_version max_heap has_class has_method malloc_succeeds args t =
      let (t', err) =
        initialize hotspot_version max_heap has_class has_method malloc_succeeds args t in
      ((t', err), not err && t'.enabled)
