-- ===== src/Profiler/Select.antt =====
-- The choice of the engines, and what the JVM has to offer.
use java_profiler.Base.{
  Bool, true, false, not, ◌&&◌, ◌||◌, if◌then◌else◌, Option, none, some, bytes, str_equal,
}
use java_profiler.Arguments.{Arguments, WallclockSampler, asgct, jvmti, is_negative}
use java_profiler.Profiler.{
  Text, Error, Engine, noop_engine, perf_events, ctimer, itimer, j9_engine, wall_asgct_engine,
  wall_jvmti_engine, object_sampler, EventMask, World,
}

unfoldable pub is_event : Option Text → Text → Bool
unfolding str_equal
is_event none name = false
is_event (some event) name = str_equal event name

unfoldable pub is_null : Option Text → Bool
is_null none = true
is_null (some event) = false

abbrev pub is_error : Error → Bool
is_error none = false
is_error (some message) = true

-- The engine for the event `cpu`.
unfoldable pub select_sampler : World → Engine
select_sampler w =
    if w.openj9 && (not w.should_use_asgct || not w.can_use_asgct)
    then j9_engine
    else if not (is_error (w.check ctimer))
    then ctimer
    else if not (is_error (w.check perf_events))
    then perf_events
    else itimer

unfoldable pub select_cpu_engine : {D : Type 0} → World → Arguments D → Engine
unfolding is_event is_null select_sampler
select_cpu_engine w args =
    if is_negative args.cpu && (is_null args.event || is_event args.event (bytes "noop"))
    then noop_engine
    else if not (is_negative args.cpu) || is_event args.event (bytes "cpu")
    then select_sampler w
    else if is_event args.event (bytes "wall")
    then noop_engine
    else if is_event args.event (bytes "itimer")
    then itimer
    else if is_event args.event (bytes "ctimer")
    then ctimer
    else perf_events

abbrev pub is_jvmti : WallclockSampler → Bool
is_jvmti jvmti = true
is_jvmti asgct = false

unfoldable pub select_wall_engine : {D : Type 0} → World → Arguments D → Engine
unfolding is_event
select_wall_engine w args =
    if is_negative args.wall && not (is_event args.event (bytes "wall"))
    then noop_engine
    else if w.openj9
    then (if is_jvmti args.wallclock_sampler || not w.should_use_asgct || not w.can_use_asgct
        then j9_engine
        else wall_asgct_engine)
    else if is_jvmti args.wallclock_sampler
    then wall_jvmti_engine
    else wall_asgct_engine

unfoldable pub select_alloc_engine : World → Engine
select_alloc_engine w = if w.can_sample_objects then object_sampler else noop_engine

unfoldable pub check_jvm_capabilities : World → Error
check_jvm_capabilities w =
    if not w.has_java_thread_id
    then some (bytes "Could not find Thread ID field. Unsupported JVM?")
    else if not w.has_thread_bridge
    then some (bytes "Could not find VMThread bridge. Unsupported JVM?")
    else if w.adaptive_gc_boundary
    then some (
        bytes
          "The user has explicitly set -XX:+UseAdaptiveGCBoundary so the profiler has been disabled to avoid the risk of crashing.")
    else if not w.finds_dlopen
    then some (bytes "Could not set dlopen hook. Unsupported JVM?")
    else none

-- `_event_mask` in `start`
unfoldable pub mask_of : {D : Type 0} → Arguments D → EventMask
unfolding is_event is_null
mask_of args = record {
  cpu =
      (not (is_null args.event) && not (is_event args.event (bytes "noop")))
      || not (is_negative args.cpu);
  wall = not (is_negative args.wall);
  alloc = args.record_allocations || args.record_liveness || args.gc_generations;
}
