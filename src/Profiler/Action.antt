-- ===== src/Profiler/Action.antt =====
-- profiler.cpp: `dump`, `check`, `runInternal`, `restart` and `shutdown`. The state lock is recursive, so that
-- the operations that call others under it are the calls one after another; the output is left out.
use java_profiler.Base.{
  ◌+◌, ◌%◌, ◌^◌, Bool, true, false, not, ◌&&◌, ◌||◌, if◌then◌else◌, none, some, ◌>>=◌, bytes,
}
use java_profiler.Arguments.{
  Arguments, Action, action_start, action_resume, action_stop, action_check, is_negative,
}
use java_profiler.ThreadInfo.{clear_all_but}
use java_profiler.Profiler.{
  Text, Error, State, idle, running, terminated, perf_events, same, FlightRecorder, Profiler,
  Result, World,
}
use java_profiler.Profiler.Locks.{all_locked}
use java_profiler.Profiler.Recorder.{dump_recording}
use java_profiler.Profiler.Select.{
  is_null, select_cpu_engine, select_wall_engine, select_alloc_engine, check_jvm_capabilities,
}
use java_profiler.Profiler.Control.{
  and_then, is_running, is_started, clear_storage, clear_class_map, start,
}
use java_profiler.Profiler.Stopping.{update_thread_names, stop}
use java_profiler.Profiler.Engines.{returns, is_dwarf, is_lbr, is_vm_or_more}

-- The traces are kept in the lightweight mode.
unfoldable pub drop_traces : Profiler → Result
unfolding clear_storage
drop_traces p = if p.omit_stacktraces then some (none, p) else clear_storage p

-- The part of `dump` under all locks, and what follows the dump of the recording there.
unfoldable pub dump_rest : Profiler → Error × FlightRecorder → Result
unfolding drop_traces
dump_rest p (error, jfr) =
    drop_traces (record p { jfr = jfr; epoch = (p.epoch + 1) % 2 ^ 32 })
    >>= (λ (_, p'). some (error, p'))

unfoldable pub dump_locked : (path : Text) → Profiler → Result
unfolding dump_recording dump_rest
dump_locked path p = dump_recording path p.jfr >>= dump_rest p

-- `live_threads` are the threads that the flush of the LivenessTracker gives.
unfoldable pub dump_running : World → (path : Text) → Profiler → Result
unfolding update_thread_names all_locked dump_locked clear_class_map clear_all_but
dump_running w path p = do
  (error, p) ← all_locked (dump_locked path) (update_thread_names w p)
  let p = clear_class_map p
  some (error, record p { thread_info = clear_all_but w.live_threads p.thread_info })

abbrev pub has_started : State → Bool
has_started idle = true
has_started running = true
has_started _ = false

unfoldable pub dump : World → (path : Text) → Profiler → Result
unfolding dump_running
dump w path p =
    if not (has_started p.state)
    then returns (bytes "Profiler has not started") p
    else if is_running p.state
    then dump_running w path p
    else some (none, p)

unfoldable pub check_cpu : {D : Type 0} → World → Arguments D → Profiler → Result
unfolding select_cpu_engine is_null
check_cpu w args p =
    let cpu = select_cpu_engine w args in
    if not (is_null args.event) || not (is_negative args.cpu)
    then some (w.check cpu, record p { cpu_engine = cpu })
    else some (none, p)

unfoldable pub check_wall : {D : Type 0} → World → Arguments D → Profiler → Result
unfolding select_wall_engine
check_wall w args p =
    let wall = select_wall_engine w args in
    if not (is_negative args.wall)
    then some (w.check wall, record p { wall_engine = wall })
    else some (none, p)

unfoldable pub check_alloc : {D : Type 0} → World → Arguments D → Profiler → Result
unfolding select_alloc_engine
check_alloc w args p =
    let alloc = select_alloc_engine w in
    if not (is_negative args.memory)
    then some (w.check alloc, record p { alloc_engine = alloc })
    else some (none, p)

-- The last test is on the `_cstack` of the profiler.
unfoldable pub check_cstack : {D : Type 0} → World → Arguments D → Profiler → Result
check_cstack w args p =
    if is_dwarf args.cstack && not w.dwarf_supported
    then returns (bytes "DWARF unwinding is not supported on this platform") p
    else if is_lbr args.cstack && not (same p.cpu_engine perf_events)
    then returns (bytes "Branch stack is supported only with PMU events") p
    else if is_vm_or_more p.cstack && not (w.has_stack_structs && w.linux)
    then returns (bytes "VMStructs stack walking is not supported on this JVM/platform") p
    else some (none, p)

unfoldable pub check : {D : Type 0} → World → Arguments D → Profiler → Result
unfolding check_jvm_capabilities check_cpu check_wall check_alloc check_cstack and_then
check w args p =
    if is_started p.state
    then returns (bytes "Profiler already started") p
    else and_then (some (check_jvm_capabilities w, p)) (λ p. and_then (check_cpu w args p) (λ p.
      and_then (check_wall w args p) (λ p. and_then (check_alloc w args p) (check_cstack w args))))

-- The error of `stop` is dropped.
unfoldable pub run_internal : {D : Type 0} → World → Arguments D → Action → Profiler → Result
unfolding start stop check
run_internal w args action_start p = start w args true p
run_internal w args action_resume p = start w args false p
run_internal w args action_stop p = stop w p >>= (λ (error, p'). some (none, p'))
run_internal w args action_check p = check w args p
run_internal w args _ p = some (none, p)

unfoldable pub restart : World → Profiler → Result
unfolding stop
restart w p = stop w p

-- The last stop, where the profiler runs.
unfoldable pub last_stop : {D : Type 0} → World → Arguments D → (runs : Bool) → Profiler → Result
unfolding run_internal
last_stop w args true p = run_internal w args action_stop p
last_stop w args false p = some (none, p)

unfoldable pub shutdown : {D : Type 0} → World → Arguments D → Profiler → Result
unfolding last_stop
shutdown w args p =
    last_stop w args (is_running p.state) p
    >>= (λ (_, p'). some (none, record p' { state = terminated }))
