-- ===== src/Profiler/Examples.antt =====
-- Runs of the profiler with one set of answers.
use java_profiler.Base.{
  ℕ, ◌-◌, inl, ◌^◌, Bool, true, false, List, [], ◌∷◌, Option, none, some, ◌≡◌, refl, bytes,
  str_equal,
}
use java_profiler.Arguments.{Arguments, initial, is_negative}
use java_profiler.Arguments.Pattern.{file}
use java_profiler.CallTraceStorage.Clearing.{IsCleared}
use java_profiler.CallTraceStorage.{CallFrame}
use java_profiler.CallTraceStorage
use java_profiler.CallTraceStorage.Claim.{new-IsValid}
use java_profiler.SpinLock.{try_lock, unlock}
use java_profiler.Dictionary
use java_profiler.Profiler.{
  State, running, terminated, ctimer, same, FlightRecorder, Profiler, World, new_profiler,
}
use java_profiler.Profiler.Beginning.{IsSound, IsActive}
use java_profiler.Profiler.Safety.{
  Call, start_call, stop_call, dump_call, shutdown_call, run, run-new_profiler-Sound,
}
use java_profiler.Profiler.Sampling.{Sampled, record_sample-Sampled}
use java_profiler.Profiler.Samples.{record_sample}
use java_profiler.Profiler.Recorder.{start_recording, stop_recording, record_log}
use java_profiler.Profiler.Action.{dump}
use java_profiler.Profiler.Faults.{stop_recording_stuck, dump_to_itself}

abbrev world : World
world = record {
  pid = bytes "42";
  date = bytes "20240101";
  getenv = λ _. none;
  opens = λ _. true;
  allocates = λ _. true;
  time = 1000;
  openj9 = false;
  should_use_asgct = true;
  can_use_asgct = true;
  old_or_zing = false;
  linux = true;
  has_java_thread_id = true;
  has_thread_bridge = true;
  adaptive_gc_boundary = false;
  finds_dlopen = true;
  has_stack_structs = true;
  dwarf_supported = true;
  can_sample_objects = true;
  check = λ _. none;
  start = λ _. none;
  java_threads = (7, bytes "main", 1) ∷ [];
  native_threads = 8 ∷ [];
  thread_name = λ _. bytes "gc";
  live_threads = [];
}

-- The options cpu=10ms and file=out.jfr.
abbrev args : Arguments Bool
args = record (initial true false) { cpu = 10000000; file = some (bytes "out.jfr") }

abbrev state_of : Option Profiler → Option (State × Bool × ℕ)
state_of none = none
state_of (some p) = some (p.state, p.jfr.recording, p.jfr.rec_lock)

abbrev life : List (World × Call Bool)
life =
    (world, start_call args true)
    ∷ (world, dump_call (bytes "copy.jfr"))
    ∷ (world, stop_call)
    ∷ (world, start_call args false)
    ∷ []

life-run : state_of (run life new_profiler) ≡ some (running, true, 0)
unfolding run new_profiler is_negative try_lock unlock java_profiler.CallTraceStorage.new
life-run = refl

last_run :
    state_of (
      run
        ((world, start_call args true)
          ∷ (world, shutdown_call args)
          ∷ (world, start_call args true)
          ∷ [])
        new_profiler)
    ≡ some (terminated, false, 1)
unfolding run new_profiler is_negative try_lock unlock java_profiler.CallTraceStorage.new
last_run = refl

run-new_profiler-Sound_example : (p : Profiler) × (run life new_profiler ≡ some p) × IsSound p
run-new_profiler-Sound_example =
    run-new_profiler-Sound life (λ _. refl, (λ _. refl, (λ _. refl, (λ _. refl, tt))))

abbrev frame : CallFrame
frame = record { bci = 5; padding = 0; method_id = 99 }

abbrev no_frame : CallFrame
no_frame = record { bci = 2 ^ 32 - 18; padding = 0; method_id = 1 }

record_sample-Sampled_example :
    Sampled no_frame
      (frame ∷ [])
      false
      10
      7
      0
      new_profiler
      (record_sample no_frame (frame ∷ []) false 10 7 0 new_profiler).0
      (record_sample no_frame (frame ∷ []) false 10 7 0 new_profiler).1
record_sample-Sampled_example =
    record_sample-Sampled no_frame (frame ∷ []) false 10 7 0 new_profiler

abbrev closed : FlightRecorder
closed = record { filename = []; recording = false; rec_lock = 1 }

abbrev broken : World
broken = record world { opens = λ _. false }

stop_recording_stuck_example :
    ((start_recording broken args closed).0
      ≡ some (bytes "Could not open Flight Recorder output file"))
    × (record_log (start_recording broken args closed).1 ≡ none)
    × ((start_recording world args (start_recording broken args closed).1).0 ≡ none)
    × (stop_recording (start_recording world args (start_recording broken args closed).1).1 ≡ none)
stop_recording_stuck_example =
    stop_recording_stuck broken world args args closed 111 111 (bytes "ut.jfr") (bytes "ut.jfr")
      refl refl (unfold file in refl) refl (unfold file in refl) refl

-- A profiler that runs with one engine.
abbrev active : Profiler
active = record new_profiler {
  state = running;
  event_mask = record { cpu = true; wall = false; alloc = false };
  cpu_engine = ctimer;
  started = λ e. same e ctimer;
  thread_events = true;
  jfr = record { filename = bytes "out.jfr"; recording = true; rec_lock = 0 };
}

active-IsActive : IsActive active
unfolding new_profiler
active-IsActive = (
  record {
    recorded = refl;
    opened = refl;
    covered = λ x on. inl (refl, on);
    others_disabled = λ _ _. refl;
    free = λ _ _ _. refl;
    stored = (new-IsValid, unfold CallTraceStorage.new in refl);
  },
  refl,
  refl,
  (ctimer, refl),
)

dump_to_itself_example :
    (p' : Profiler) × (dump world (bytes "out.jfr") active
      ≡ some (some (bytes "Can not dump recording to itself. Provide a different file name!"), p'))
    × (p'.jfr.recording ≡ true)
    × IsCleared p'.call_trace_storage
    × (p'.class_map ≡ Dictionary.clear active.class_map)
dump_to_itself_example =
    dump_to_itself world (bytes "out.jfr") active active-IsActive (unfold new_profiler in refl)
      (unfold str_equal in refl)
