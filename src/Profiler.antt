-- ===== src/Profiler.antt =====
-- profiler.h, profiler.cpp: the state of the profiler and what it asks of its surroundings. An
-- error is its message.
pub mod Recorder
pub mod Locks
pub mod Select
pub mod Engines
pub mod Control
pub mod Stopping
pub mod Action
pub mod Samples
pub mod Sampling
pub mod Holding
pub mod Quiet
pub mod Started
pub mod Beginning
pub mod Running
pub mod Keeping
pub mod Dumping
pub mod Safety
pub mod Faults
mod Examples
use java_profiler.Base.{
  ℕ, ◌+◌, Bool, true, false, ◌==◌, ◌||◌, if◌then◌else◌, List, [], ◌∷◌, Option, none, some, bytes,
}
use java_profiler.Arguments.{CStack, cstack_no}
use java_profiler.CallTraceStorage.{CallTraceStorage}
use java_profiler.Dictionary.{Dictionary}
use java_profiler.ThreadInfo.{ThreadInfo}
use java_profiler.CallTraceStorage
use java_profiler.Dictionary
use java_profiler.ThreadInfo

abbrev pub Text : Type 0
Text = List ℕ

-- `none` is Error::OK.
abbrev pub Error : Type 0
Error = Option Text

pub data State : Type 0 where
  new idle running terminated : State

pub data Engine : Type 0 where
  noop_engine perf_events ctimer itimer j9_engine wall_asgct_engine wall_jvmti_engine
        object_sampler :
      Engine

-- Engines are objects; this is the address of each.
abbrev pub address : Engine → ℕ
address noop_engine = 0
address perf_events = 1
address ctimer = 2
address itimer = 3
address j9_engine = 4
address wall_asgct_engine = 5
address wall_jvmti_engine = 6
address object_sampler = 7

abbrev pub same : Engine → Engine → Bool
same a b = address a == address b

-- The bits of an `int` of EventMask.
pub record EventMask : Type 0 where
  pub cpu : Bool
  pub wall : Bool
  pub alloc : Bool

-- `mask != 0`
abbrev pub some_event : EventMask → Bool
some_event m = m.cpu || m.wall || m.alloc

abbrev pub concurrency_level : ℕ
concurrency_level = 16

-- `_filename`, whether `_rec` is there, and the static `_rec_lock`.
pub record FlightRecorder : Type 0 where
  pub filename : Text
  pub recording : Bool
  pub rec_lock : ℕ

-- `started` tells of each engine whether it was started and not stopped since, `events` is what was
-- last passed to its `enableEvents`, `library_trap` whether dlopen is hooked. The place `i` of
-- `calltrace_buffer` is the number of elements of the buffer, 0 for NULL.
pub record Profiler : Type 0 where
  pub state : State
  pub event_mask : EventMask
  pub cpu_engine : Engine
  pub wall_engine : Engine
  pub alloc_engine : Engine
  pub started : Engine → Bool
  pub events : Engine → Bool
  pub library_trap : Bool
  pub thread_events : Bool
  pub start_time : ℕ
  pub epoch : ℕ
  pub total_samples : ℕ
  pub skipped : ℕ
  pub class_map : Dictionary
  pub call_trace_storage : CallTraceStorage
  pub thread_info : ThreadInfo
  pub locks : ℕ → ℕ
  pub calltrace_buffer : ℕ → ℕ
  pub max_stack_depth : ℕ
  pub safe_mode : ℕ
  pub cstack : CStack
  pub omit_stacktraces : Bool
  pub jfr : FlightRecorder

-- `none` is a lock that is waited for without end.
abbrev pub Result : Type 0
Result = Option (Error × Profiler)

-- The constructor. An engine that is not set is the one that does nothing.
unfoldable pub new_profiler : Profiler
new_profiler = record {
  state = new;
  event_mask = record { cpu = false; wall = false; alloc = false };
  cpu_engine = noop_engine;
  wall_engine = noop_engine;
  alloc_engine = noop_engine;
  started = λ _. false;
  events = λ _. false;
  library_trap = false;
  thread_events = false;
  start_time = 0;
  epoch = 0;
  total_samples = 0;
  skipped = 0;
  class_map = Dictionary.new;
  call_trace_storage = CallTraceStorage.new;
  thread_info = ThreadInfo.new;
  locks = λ _. 0;
  calltrace_buffer = λ _. 0;
  max_stack_depth = 0;
  safe_mode = 0;
  cstack = cstack_no;
  omit_stacktraces = false;
  jfr = record { filename = []; recording = false; rec_lock = 1 };
}

-- What the JVM, the system, the engines and the environment answer during an operation.
pub record World : Type 0 where
  pub pid : Text
  pub date : Text
  pub getenv : Text → Option Text
  pub opens : Text → Bool
  pub allocates : ℕ → Bool
  pub time : ℕ
  pub openj9 : Bool
  pub should_use_asgct : Bool
  pub can_use_asgct : Bool
  pub old_or_zing : Bool
  pub linux : Bool
  pub has_java_thread_id : Bool
  pub has_thread_bridge : Bool
  pub adaptive_gc_boundary : Bool
  pub finds_dlopen : Bool
  pub has_stack_structs : Bool
  pub dwarf_supported : Bool
  pub can_sample_objects : Bool
  pub check : Engine → Error
  pub start : Engine → Error
  pub java_threads : List (ℕ × Text × ℕ)
  pub native_threads : List ℕ
  pub thread_name : ℕ → Text
  pub live_threads : List ℕ
