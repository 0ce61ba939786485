-- ===== src/Profiler/Control.antt =====
-- profiler.cpp: `start`. Its calls that change none of the state here are left out: the log, the thread
-- filter, the slots of existing threads, the symbols, the metadata and the counters.
use java_profiler.Base.{
  ℕ, zero, suc, ◌+◌, ◌%◌, ◌^◌, Bool, true, false, ◌||◌, ◌==◌, if◌then◌else◌, update, none, some,
  ◌>>=◌, bytes,
}
use java_profiler.Arguments.{Arguments}
use java_profiler.CallTraceStorage.Clearing.{clear}
use java_profiler.Dictionary
use java_profiler.ThreadInfo.{clear_all}
use java_profiler.Profiler.{
  Error, State, new, idle, running, terminated, some_event, concurrency_level, Profiler, Result,
  World,
}
use java_profiler.Profiler.Locks.{all_locked}
use java_profiler.Profiler.Recorder.{start_recording, stop_recording}
use java_profiler.Profiler.Select.{check_jvm_capabilities, mask_of}
use java_profiler.Profiler.Engines.{
  is_dwarf, choose_engines, switch_engines, switch_library_trap, disable, activate_all, returns,
}

-- `if (error) return error;`, and the rest of the operation.
unfoldable pub and_then : Result → (Profiler → Result) → Result
and_then none rest = none
and_then (some (none, p)) rest = rest p
and_then (some (some message, p)) rest = some (some message, p)

abbrev pub is_running : State → Bool
is_running running = true
is_running _ = false

-- `state > IDLE`
abbrev pub is_started : State → Bool
is_started new = false
is_started idle = false
is_started running = true
is_started terminated = true

unfoldable pub clear_storage : Profiler → Result
unfolding clear
clear_storage p = do
  storage ← clear p.call_trace_storage
  some (none, record p { call_trace_storage = storage })

-- `_class_map.clear()`, without the lock around it, which is taken and released.
unfoldable pub clear_class_map : Profiler → Profiler
clear_class_map p = record p { class_map = Dictionary.clear p.class_map }

unfoldable pub reset_data : Profiler → Result
unfolding clear_class_map clear_storage all_locked clear_all and_then
reset_data p =
    let p = clear_class_map (record p { total_samples = 0; skipped = 0 }) in
    and_then (if p.omit_stacktraces then some (none, p) else all_locked clear_storage p)
      (λ p. some (none, record p { thread_info = clear_all p.thread_info }))

-- The loop that allocates the buffers, from `i` on.
unfoldable pub allocate_buffers : World → (elements left i : ℕ) → Profiler → Error × Profiler
allocate_buffers w elements zero i p = (none, p)
allocate_buffers w elements (suc left) i p =
    let p' = record p {
      calltrace_buffer = update p.calltrace_buffer i (if w.allocates i then elements else 0);
    } in
    let rest = allocate_buffers w elements left (i + 1) p' in
    if w.allocates i then rest else (
      some (bytes "Not enough memory to allocate stack trace buffers (try smaller jstackdepth)"),
      record p' { max_stack_depth = 0 },
    )

-- MAX_NATIVE_FRAMES + RESERVED_FRAMES
abbrev pub extra_frames : ℕ
extra_frames = 138

unfoldable pub fit_buffers : World → (jstackdepth : ℕ) → Profiler → Result
unfolding allocate_buffers
fit_buffers w jstackdepth p =
    if p.max_stack_depth == jstackdepth
    then some (none, p)
    else some (
        allocate_buffers w (jstackdepth + extra_frames) concurrency_level 0
          (record p { max_stack_depth = jstackdepth }))

unfoldable pub recorded : Error → Profiler → Result
unfolding disable
recorded none p = some (none, p)
recorded (some message) p = returns message (disable p)

unfoldable pub start_jfr : {D : Type 0} → World → Arguments D → Profiler → Result
unfolding switch_engines switch_library_trap start_recording recorded
start_jfr w args p =
    let p = switch_library_trap (is_dwarf p.cstack) (switch_engines true p) in
    let (error, jfr) = start_recording w args p.jfr in recorded error (record p { jfr = jfr })

unfoldable pub stop_jfr : Profiler → Result
unfolding stop_recording
stop_jfr p = do jfr ← stop_recording p.jfr; some (none, record p { jfr = jfr })

unfoldable pub finish_start : World → (activated : Bool) → Profiler → Result
unfolding disable all_locked stop_jfr and_then
finish_start w true p = some (
  none,
  record p {
    thread_events = true;
    state = running;
    start_time = w.time;
    epoch = (p.epoch + 1) % 2 ^ 32;
  },
)
finish_start w false p =
    and_then (all_locked stop_jfr (disable p))
      (returns (bytes "Neither CPU, wallclock nor allocation profiling could be started"))

unfoldable pub start_activated : World → Profiler → Result
unfolding activate_all finish_start
start_activated w p = let (activated, p') = activate_all w p in finish_start w activated p'

-- `start` behind the test of the events.
unfoldable pub start_events :
    {D : Type 0} → World → Arguments D → (reset : Bool) → Profiler → Result
unfolding reset_data fit_buffers choose_engines start_jfr start_activated and_then
start_events w args reset p =
    and_then (if reset || p.start_time == 0 then reset_data p else some (none, p)) (λ p.
      and_then (fit_buffers w args.jstackdepth p) (λ p.
        and_then (choose_engines w args p)
          (λ p. and_then (start_jfr w args p) (start_activated w))))

unfoldable pub start_checked :
    {D : Type 0} → World → Arguments D → (reset : Bool) → Profiler → Result
unfolding start_events mask_of
start_checked w args reset p =
    let p' = record p { omit_stacktraces = args.lightweight; event_mask = mask_of args } in
    if some_event (mask_of args)
    then start_events w args reset p'
    else returns (bytes "No profiling events specified") p'

unfoldable pub start : {D : Type 0} → World → Arguments D → (reset : Bool) → Profiler → Result
unfolding start_checked check_jvm_capabilities and_then
start w args reset p =
    if is_started p.state
    then returns (bytes "Profiler already started") p
    else and_then (some (check_jvm_capabilities w, p)) (start_checked w args reset)
