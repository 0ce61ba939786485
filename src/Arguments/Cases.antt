-- ===== src/Arguments/Cases.antt =====
-- The cases of the simulated `switch` of `parse`. A text of an argument without `=` is `none`; a message
-- of `none` leaves `msg` as it was.
use java_profiler.Base.{
  ℕ, ◌-◌, ◌*◌, ◌%◌, ◌^◌, Bool, true, false, ◌&&◌, ◌||◌, not, ◌==◌, if◌then◌else◌, List, [], ◌∷◌,
  ◌++◌, Option, none, some, bytes, str_equal, cut, has_char,
}
use java_profiler.Arguments.Numbers.{strtol, atoi, parse_units, nanos, byte_units, universal}
use java_profiler.Arguments.{
  Text, Arguments, Message, cpu_negative, wall_negative, walltpt_invalid, event_empty,
  event_duplicate, interval_invalid, jstackdepth_invalid, file_empty, loglevel_empty, action_start,
  action_resume, action_stop, action_check, action_status, action_list, action_version, ring_kernel,
  ring_user, CStack, cstack_no, cstack_fp, cstack_dwarf, cstack_lbr, cstack_vm, cstack_vmx, asgct,
  jvmti, default_alloc_interval, is_negative, is_positive, is_positive_int,
}
use java_profiler.Arguments.Labels.{
  Keyword, opt_start, opt_resume, opt_stop, opt_check, opt_status, opt_list, opt_version, opt_jfr,
  opt_cpu, opt_wall, opt_walltpt, opt_event, opt_memory, opt_generations, opt_interval,
  opt_jstackdepth, opt_safemode, opt_file, opt_log, opt_loglevel, opt_filter, opt_allkernel,
  opt_alluser, opt_cstack, opt_attributes, opt_lightweight, opt_wallsampler,
}

-- `value == NULL || value[0] == 0`
unfoldable pub is_blank : Option Text → Bool
is_blank none = true
is_blank (some []) = true
is_blank (some (c ∷ s)) = false

abbrev pub message_if : Bool → Message → Option Message
message_if test msg = if test then some msg else none

-- `(int)strtol(value, NULL, 0)`
unfoldable pub to_int : Text → ℕ
unfolding strtol
to_int value = (strtol value).0 % 2 ^ 32

unfoldable pub cstack_mode : Text → CStack
cstack_mode value =
    if str_equal value (bytes "fp")
    then cstack_fp
    else if str_equal value (bytes "dwarf")
    then cstack_dwarf
    else if str_equal value (bytes "lbr")
    then cstack_lbr
    else if str_equal value (bytes "vm")
    then cstack_vm
    else if str_equal value (bytes "vmx")
    then cstack_vmx
    else cstack_no

-- The parts between separators.
unfoldable pub put_first : Bool → ℕ → List Text → List Text
put_first true c parts = [] ∷ parts
put_first false c [] = (c ∷ []) ∷ []
put_first false c (part ∷ parts) = (c ∷ part) ∷ parts

unfoldable pub split : (separator : ℕ) → Text → List Text
unfolding put_first
split separator [] = [] ∷ []
split separator (c ∷ input) = put_first (c == separator) c (split separator input)

-- `value[0]` is one of two characters.
unfoldable pub starts_with : Text → (c d : ℕ) → Bool
starts_with [] c d = false
starts_with (x ∷ s) c d = x == c || x == d

module _ {D : Type 0} (clamped : Text → D) where
  abbrev pub Outcome : Type 0
  Outcome = Arguments D × Option Message

  unfoldable pub set_cpu : Option Text → Arguments D → Outcome
  unfolding parse_units is_negative
  set_cpu none a = (record a { cpu = 0 }, none)
  set_cpu (some value) a =
      let cpu = parse_units value nanos in
      (record a { cpu = cpu }, message_if (is_negative cpu) cpu_negative)

  unfoldable pub wall_value : Text → Arguments D → Arguments D
  unfolding parse_units
  wall_value [] a = record a { wall = parse_units [] nanos }
  wall_value (c ∷ value) a =
      if c == 126
      then record a { wall_collapsing = true; wall = parse_units value nanos }
      else record a { wall = parse_units (c ∷ value) nanos }

  unfoldable pub set_wall : Option Text → Arguments D → Outcome
  unfolding wall_value is_negative
  set_wall none a = (record a { wall = 0 }, none)
  set_wall (some value) a =
      let a' = wall_value value a in (a', message_if (is_negative a'.wall) wall_negative)

  unfoldable pub set_walltpt : Option Text → Arguments D → Outcome
  unfolding atoi is_positive_int
  set_walltpt none a = (a, some walltpt_invalid)
  set_walltpt (some value) a =
      let n = atoi value in
      (record a { wall_threads_per_tick = n }, message_if (not (is_positive_int n)) walltpt_invalid)

  unfoldable pub first_event : Text → Option Text → Arguments D → Outcome
  first_event value none a = (record a { event = some value }, none)
  first_event value (some e) a = (a, some event_duplicate)

  unfoldable pub set_event : Option Text → Arguments D → Outcome
  unfolding is_negative first_event
  set_event none a = (a, some event_empty)
  set_event (some []) a = (a, some event_empty)
  set_event (some (c ∷ s)) a =
      if str_equal (c ∷ s) (bytes "alloc")
      then (record a { memory = if is_negative a.memory then 0 else a.memory }, none)
      else first_event (c ∷ s) a.event a

  -- The flags of `memory`, and its ratio.
  unfoldable pub with_flags : Text → Arguments D → Arguments D
  unfolding has_char
  with_flags config a =
      let b = if has_char 97 config then record a { record_allocations = true } else a in
      if has_char 108 config
      then record b { record_liveness = true }
      else (if has_char 76 config
          then record b { record_liveness = true; record_heap_usage = true }
          else b)

  unfoldable pub with_ratio : Option Text → Arguments D → Arguments D
  with_ratio none a = a
  with_ratio (some ratio) a =
      if a.record_liveness then record a { live_samples_ratio = clamped ratio } else a

  unfoldable pub configure : (config : Option Text) → Arguments D → Arguments D
  unfolding cut with_flags with_ratio
  configure none a = record a { record_allocations = true; record_liveness = true }
  configure (some config) a =
      let (flags, ratio) = cut 58 config in with_ratio ratio (with_flags flags a)

  unfoldable pub memory_value : Option Text → ℕ × Option Text
  unfolding cut parse_units
  memory_value none = (default_alloc_interval, none)
  memory_value (some value) =
      let (number, config) = cut 58 value in (parse_units number byte_units, config)

  unfoldable pub set_memory : Option Text → Arguments D → Outcome
  unfolding memory_value configure is_negative
  set_memory value a =
      let (memory, config) = memory_value value in
      let a' = record a { memory = memory } in
      ((if is_negative memory then a' else configure config a'), none)

  unfoldable pub is_true : Option Text → Bool
  is_true none = false
  is_true (some value) = str_equal value (bytes "true")

  unfoldable pub set_generations : Option Text → Arguments D → Outcome
  unfolding is_true is_positive
  set_generations value a =
      let generations = is_true value in
      (
        record a {
          gc_generations = generations;
          memory = if generations && not (is_positive a.memory) then 4 * 1024 * 1024 else a.memory;
        },
        none,
      )

  unfoldable pub set_interval : Option Text → Arguments D → Outcome
  unfolding parse_units is_positive
  set_interval none a = (a, some interval_invalid)
  set_interval (some value) a =
      let n = parse_units value universal in
      (record a { interval = n }, message_if (not (is_positive n)) interval_invalid)

  unfoldable pub set_jstackdepth : Option Text → Arguments D → Outcome
  unfolding atoi is_positive_int
  set_jstackdepth none a = (a, some jstackdepth_invalid)
  set_jstackdepth (some value) a =
      let n = atoi value in
      (record a { jstackdepth = n }, message_if (not (is_positive_int n)) jstackdepth_invalid)

  unfoldable pub set_safemode : Option Text → Arguments D → Arguments D
  unfolding to_int
  set_safemode none a = record a { safe_mode = 2 ^ 31 - 1 }
  set_safemode (some value) a = record a { safe_mode = to_int value }

  unfoldable pub set_jfr : Option Text → Arguments D → Arguments D
  unfolding to_int
  set_jfr none a = a
  set_jfr (some value) a = record a { jfr_options = to_int value }

  unfoldable pub set_cstack : Option Text → Arguments D → Arguments D
  unfolding cstack_mode
  set_cstack none a = a
  set_cstack (some value) a = record a { cstack = cstack_mode value }

  unfoldable pub set_attributes : Option Text → Arguments D → Arguments D
  unfolding split
  set_attributes none a = a
  set_attributes (some value) a = record a {
    context_attributes = a.context_attributes ++ split 59 value;
  }

  unfoldable pub set_lightweight : Option Text → Arguments D → Arguments D
  unfolding starts_with
  set_lightweight none a = a
  set_lightweight (some value) a = record a { lightweight = starts_with value 121 116 }

  unfoldable pub set_wallsampler : Option Text → Arguments D → Arguments D
  unfolding starts_with
  set_wallsampler none a = a
  set_wallsampler (some value) a = record a {
    wallclock_sampler = if starts_with value 106 106 then jvmti else asgct;
  }

  -- The filter of an argument without a value is the empty text.
  unfoldable pub or_empty : Option Text → Text
  or_empty none = []
  or_empty (some value) = value

  unfoldable pub apply : Keyword → Option Text → Arguments D → Outcome
  unfolding is_blank set_cpu set_wall set_walltpt set_event set_memory set_generations set_interval
      set_jstackdepth set_safemode set_jfr set_cstack set_attributes set_lightweight set_wallsampler
      or_empty
  apply opt_start value a = (record a { action = action_start }, none)
  apply opt_resume value a = (record a { action = action_resume }, none)
  apply opt_stop value a = (record a { action = action_stop }, none)
  apply opt_check value a = (record a { action = action_check }, none)
  apply opt_status value a = (record a { action = action_status }, none)
  apply opt_list value a = (record a { action = action_list }, none)
  apply opt_version value a = (record a { action = action_version }, none)
  apply opt_jfr value a = (set_jfr value a, none)
  apply opt_cpu value a = set_cpu value a
  apply opt_wall value a = set_wall value a
  apply opt_walltpt value a = set_walltpt value a
  apply opt_event value a = set_event value a
  apply opt_memory value a = set_memory value a
  apply opt_generations value a = set_generations value a
  apply opt_interval value a = set_interval value a
  apply opt_jstackdepth value a = set_jstackdepth value a
  apply opt_safemode value a = (set_safemode value a, none)
  apply opt_file value a = (record a { file = value }, message_if (is_blank value) file_empty)
  apply opt_log value a = (record a { log = if is_blank value then none else value }, none)
  apply opt_loglevel value a =
      (record a { loglevel = value }, message_if (is_blank value) loglevel_empty)
  apply opt_filter value a = (record a { filter = some (or_empty value) }, none)
  apply opt_allkernel value a = (record a { ring = ring_kernel }, none)
  apply opt_alluser value a = (record a { ring = ring_user }, none)
  apply opt_cstack value a = (set_cstack value a, none)
  apply opt_attributes value a = (set_attributes value a, none)
  apply opt_lightweight value a = (set_lightweight value a, none)
  apply opt_wallsampler value a = (set_wallsampler value a, none)

  -- The default: the first argument that no label has is kept.
  unfoldable pub keep_unknown : Option Text → Text → Option Text
  keep_unknown none arg = some arg
  keep_unknown (some first) arg = some first

  unfoldable pub dispatch : Option Keyword → (arg : Text) → Option Text → Arguments D → Outcome
  unfolding apply keep_unknown
  dispatch none arg value a = (record a { unknown_arg = keep_unknown a.unknown_arg arg }, none)
  dispatch (some k) arg value a = apply k value a
