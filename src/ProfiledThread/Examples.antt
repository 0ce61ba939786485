-- ===== src/ProfiledThread/Examples.antt =====
-- Runs of the operations of a thread on concrete data.
use java_profiler.Base.{
  ℕ, ◌≤◌, Bool, true, false, List, [], ◌∷◌, Option, none, some, ◌≡◌, refl, arith,
}
use java_profiler.ProfiledThread.{
  ProfiledThread, new, Operation, look_up, record_trace, enter, perform, set_unwinding_java,
  lookup_wallclock_call_trace_id, note_cpu_sample, record_call_trace_id,
}
use java_profiler.ProfiledThread.Crashes.{perform_all, lookup_in_span}
use java_profiler.ProfiledThread.Collapsing.{lookup-record_call_trace_id}
use java_profiler.ProfiledThread.Mutex.{may_acquire}
use java_profiler.ProfiledThread.Nesting.{
  Frame, made, Handlers, Reach, begin, later, refuse, test, set, holders, acquired_once,
}
use java_profiler.ProfiledThread.Tls.{Threads, no_threads}
use java_profiler.ProfiledThread.Owners.{IsLive}
use java_profiler.ProfiledThread.Safety.{
  Event, init_current, init_existing, signal, release_current, end_thread, run, run_owned,
}

-- A wall-clock sample in no span, its trace, and one more.
collapsed :
    (lookup_wallclock_call_trace_id 0x7f00 1 0
      (perform_all (look_up 0x7f00 1 0 ∷ record_trace 42 ∷ []) (new none 7))).0
    ≡ 42
unfolding lookup_wallclock_call_trace_id perform_all perform new
collapsed = refl

-- The same in span 5.
not_collapsed :
    (lookup_wallclock_call_trace_id 0x7f00 1 5
      (perform_all (look_up 0x7f00 1 5 ∷ record_trace 42 ∷ []) (new none 7))).0
    ≡ 0
unfolding lookup_wallclock_call_trace_id perform_all perform new
not_collapsed = refl

abbrev six_crashes : List Operation
six_crashes = enter ∷ enter ∷ enter ∷ enter ∷ enter ∷ enter ∷ []

sixth_refused : (perform_all six_crashes (new none 7)).crash_depth ≡ 5
unfolding perform_all perform new
sixth_refused = refl

lookup_in_span_example :
    (lookup_wallclock_call_trace_id 0x7f00 1 5
      (perform_all (look_up 0x7f00 1 5 ∷ record_trace 42 ∷ []) (new none 7))).0
    ≡ 0
lookup_in_span_example =
    lookup_in_span none 7 (look_up 0x7f00 1 5 ∷ record_trace 42 ∷ []) 0x7f00 1 5 (omega arith)

lookup-record_call_trace_id_example :
    (lookup_wallclock_call_trace_id 0x7f00 1 (new none 7).span_id (
        record_call_trace_id 42
          (lookup_wallclock_call_trace_id 0x7f00 1 (new none 7).span_id (new none 7)).1)
      ≡ (
        42,
        record_call_trace_id 42
            (lookup_wallclock_call_trace_id 0x7f00 1 (new none 7).span_id (new none 7)).1,
      ))
    × ((lookup_wallclock_call_trace_id 0x7f00 1
          (new none 7).span_id
          (note_cpu_sample 1 (
            record_call_trace_id 42
              (lookup_wallclock_call_trace_id 0x7f00 1 (new none 7).span_id (new none 7)).1)).1).0
        ≡ 0)
lookup-record_call_trace_id_example =
    lookup-record_call_trace_id 0x7f00 1 42 1 (new none 7) refl (unfold new in omega arith)
      (unfold lookup_wallclock_call_trace_id in unfold new in refl)

-- A handler holds the guard, and one on top of it is refused.
abbrev thread : ProfiledThread
thread = record {
  unwinding_java = false;
  pc = 0;
  span_id = 0;
  crash_depth = 0;
  buffer_pos = none;
  tid = 7;
  cpu_epoch = 0;
  wall_epoch = 0;
  call_trace_id = 0;
  recording_epoch = 0;
  unwind_failures = record { names = λ _. []; name_count = 0; counters = λ _ _. 0 };
}

abbrev interrupted : List Frame
interrupted =
    made (record { thread_local_data = true; acquired = false })
    ∷ made (record { thread_local_data = true; acquired = true })
    ∷ []

abbrev busy : Handlers
busy = record { thread = record thread { unwinding_java = true }; stack = interrupted }

busy_reached : Reach busy
unfolding may_acquire set_unwinding_java
busy_reached =
    later (later (later (begin {t = thread} refl) (test refl)) (set refl)) (refuse {d = true} refl)

acquired_once_example :
    (holders busy.stack ≤ 1)
    × (holders busy.stack ≡ 1 → (d : Bool) → may_acquire d busy.thread ≡ false)
    × (busy.stack ≡ [] → busy.thread.unwinding_java ≡ false)
acquired_once_example = acquired_once busy_reached

-- Two threads run at the start, a third finds no place; one is released and comes back.
abbrev events : List Event
events =
    init_existing true 2
    ∷ signal 10 101 1
    ∷ signal 10 102 2
    ∷ signal 10 103 3
    ∷ release_current 1
    ∷ init_current 101 1
    ∷ end_thread 2
    ∷ []

run_owned_example :
    (s : Threads) × (run 1 events no_threads ≡ some s)
    × ((i a : ℕ) → s.specific i ≡ some a → IsLive s.heap a)
    × ((i j a : ℕ) → s.specific i ≡ some a → s.specific j ≡ some a → i ≡ j)
run_owned_example = run_owned 1 events (omega arith)

abbrev slots : Option Threads → Option ℕ × Option ℕ × Option ℕ × ℕ
slots none = (none, none, none, 0)
slots (some s) = (s.specific 1, s.specific 2, s.specific 3, s.warnings)

events_run : slots (run 1 events no_threads) ≡ (some 3, none, none, 1)
unfolding run no_threads
events_run = refl
