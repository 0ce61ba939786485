-- ===== src/ProfiledThread.antt =====
-- thread.h, threadLocalData.h: what the profiler keeps for one thread. Pointers and counters are
-- numbers below their widths.
pub mod Crashes
pub mod Collapsing
pub mod Mutex
pub mod Nesting
pub mod Tls
pub mod Owners
pub mod Places
pub mod Running
pub mod Building
pub mod Safety
mod Examples
use java_profiler.Base.{
  ℕ, ◌+◌, ◌-◌, ◌^◌, ◌%◌, Bool, true, false, ◌&&◌, not, ◌==◌, ltb, if◌then◌else◌, Option, none, some,
}
use java_profiler.UnwindFailures.{UnwindFailures}
use java_profiler.UnwindFailures

abbrev pub crash_handler_nesting_limit : ℕ
crash_handler_nesting_limit = 5

-- `buffer_pos` is `none` for -1; `unwinding_java` is the part of ThreadLocalData.
pub record ProfiledThread : Type 0 where
  pub unwinding_java : Bool
  pub pc : ℕ
  pub span_id : ℕ
  pub crash_depth : ℕ
  pub buffer_pos : Option ℕ
  pub tid : ℕ
  pub cpu_epoch : ℕ
  pub wall_epoch : ℕ
  pub call_trace_id : ℕ
  pub recording_epoch : ℕ
  pub unwind_failures : UnwindFailures

unfoldable pub new : (buffer_pos : Option ℕ) (tid : ℕ) → ProfiledThread
new buffer_pos tid = record {
  unwinding_java = false;
  pc = 0;
  span_id = 0;
  crash_depth = 0;
  buffer_pos = buffer_pos;
  tid = tid;
  cpu_epoch = 0;
  wall_epoch = 0;
  call_trace_id = 0;
  recording_epoch = 0;
  unwind_failures = UnwindFailures.new;
}

unfoldable pub for_tid : ℕ → ProfiledThread
unfolding new
for_tid tid = new none tid

unfoldable pub in_buffer : ℕ → ProfiledThread
unfolding new
in_buffer buffer_pos = new (some buffer_pos) 0

unfoldable pub note_cpu_sample : (recording_epoch : ℕ) → ProfiledThread → ℕ × ProfiledThread
note_cpu_sample recording_epoch t =
    let epoch = (t.cpu_epoch + 1) % 2 ^ 32 in
    (epoch, record t { recording_epoch = recording_epoch; cpu_epoch = epoch })

-- The test for a thread that stands where it stood.
unfoldable pub is_same_sample : (pc recording_epoch span_id : ℕ) → ProfiledThread → Bool
is_same_sample pc recording_epoch span_id t =
    (t.wall_epoch == t.cpu_epoch)
    && (t.pc == pc)
    && (t.span_id == span_id)
    && (t.recording_epoch == recording_epoch)
    && not (t.call_trace_id == 0)

unfoldable pub lookup_wallclock_call_trace_id :
    (pc recording_epoch span_id : ℕ) → ProfiledThread → ℕ × ProfiledThread
unfolding is_same_sample
lookup_wallclock_call_trace_id pc recording_epoch span_id t =
    if is_same_sample pc recording_epoch span_id t
    then (t.call_trace_id, t)
    else (0, record t { wall_epoch = t.cpu_epoch; pc = pc; recording_epoch = recording_epoch })

unfoldable pub record_call_trace_id : ℕ → ProfiledThread → ProfiledThread
record_call_trace_id call_trace_id t = record t { call_trace_id = call_trace_id }

unfoldable pub enter_crash_handler : ProfiledThread → Bool × ProfiledThread
enter_crash_handler t =
    if ltb t.crash_depth crash_handler_nesting_limit
    then (true, record t { crash_depth = (t.crash_depth + 1) % 2 ^ 32 })
    else (false, t)

unfoldable pub exit_crash_handler : ProfiledThread → ProfiledThread
exit_crash_handler t =
    if ltb 0 t.crash_depth then record t { crash_depth = t.crash_depth - 1 } else t

unfoldable pub reset_crash_handler : ProfiledThread → ProfiledThread
reset_crash_handler t = record t { crash_depth = 0 }

unfoldable pub is_deep_crash_handler : ProfiledThread → Bool
is_deep_crash_handler t = ltb crash_handler_nesting_limit t.crash_depth

-- `unwindFailures(reset)`; the result is the thread's own tally.
unfoldable pub unwind_failures : (reset : Bool) → ProfiledThread → ProfiledThread
unwind_failures reset t =
    if reset then record t { unwind_failures = UnwindFailures.clear t.unwind_failures } else t

unfoldable pub set_unwinding_java : Bool → ProfiledThread → ProfiledThread
set_unwinding_java unwinding_java t = record t { unwinding_java = unwinding_java }

-- The operations that a thread, and a signal handler that runs on it, call on its data.
pub data Operation : Type 0 where
  note : (recording_epoch : ℕ) → Operation
  look_up : (pc recording_epoch span_id : ℕ) → Operation
  record_trace : (call_trace_id : ℕ) → Operation
  enter exit reset : Operation
  failures : Bool → Operation
  unwinding : Bool → Operation

unfoldable pub perform : Operation → ProfiledThread → ProfiledThread
unfolding note_cpu_sample lookup_wallclock_call_trace_id record_call_trace_id enter_crash_handler
    exit_crash_handler reset_crash_handler unwind_failures set_unwinding_java
perform (note e) t = let (_, t') = note_cpu_sample e t in t'
perform (look_up pc e s) t = let (_, t') = lookup_wallclock_call_trace_id pc e s t in t'
perform (record_trace id) t = record_call_trace_id id t
perform enter t = let (_, t') = enter_crash_handler t in t'
perform exit t = exit_crash_handler t
perform reset t = reset_crash_handler t
perform (failures r) t = unwind_failures r t
perform (unwinding b) t = set_unwinding_java b t
