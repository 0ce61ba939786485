-- ===== src/Profiler/Samples.antt =====
-- profiler.cpp: the operations that record a sample or an event under one of the locks. The stack
-- walkers, the clock and the writing of the event are left out, and so are the perf buffer that is reset
-- for a skipped sample and the id that the ProfiledThread remembers. The frames are arguments, and the
-- result is what the recording is given, the index of the lock and the id of the call trace.
use java_profiler.Base.{
  ℕ, ◌+◌, ◌%◌, ◌^◌, Bool, false, not, ◌&&◌, ◌==◌, ltb, if◌then◌else◌, List, [], ◌∷◌, Option, none,
  some,
}
use java_profiler.CallTraceStorage.{CallFrame, put}
use java_profiler.Profiler.{Profiler}
use java_profiler.Profiler.Locks.{acquire, release_lock}

abbrev pub Recorded : Type 0
Recorded = Option (ℕ × ℕ)

unfoldable pub count_sample : Profiler → Profiler
count_sample p = record p { total_samples = (p.total_samples + 1) % 2 ^ 64 }

-- `_failures[-ticks_skipped]`
unfoldable pub count_skipped : Profiler → Profiler
count_skipped p = record p { skipped = (p.skipped + 1) % 2 ^ 64 }

-- The test of the three locks: what is done without one, and with the one at an index, which is given
-- back afterwards.
unfoldable pub locked_by :
    {R : Type 0}
    → Option ℕ
    → (otherwise : Profiler → R × Profiler) → (body : ℕ → Profiler → R × Profiler) → Profiler
    → R × Profiler
unfolding release_lock
locked_by none otherwise body p = otherwise p
locked_by (some i) otherwise body p =
    let (recorded, p') = body i p in (recorded, record p' { locks = release_lock i p'.locks })

unfoldable pub under_lock :
    {R : Type 0}
    → (tid : ℕ) → (otherwise : Profiler → R × Profiler) → (body : ℕ → Profiler → R × Profiler)
    → Profiler
    → R × Profiler
unfolding acquire locked_by
under_lock tid otherwise body p =
    let (index, locks) = acquire tid p.locks in
    locked_by index otherwise body (record p { locks = locks })

abbrev pub skip : Profiler → Recorded × Profiler
skip p = (none, p)

abbrev pub skip_counted : Profiler → Recorded × Profiler
skip_counted p = (none, count_skipped p)

-- `recordWallClockEpoch`, `recordTraceRoot`, `recordQueueTime` and `writeDatadogProfilerSetting`
unfoldable pub record_event : (tid : ℕ) → Profiler → Recorded × Profiler
unfolding under_lock
record_event tid p = under_lock tid skip (λ i q. (some (i, 0), q)) p

unfoldable pub write_heap_usage : (tid : ℕ) → Profiler → Recorded × Profiler
unfolding record_event
write_heap_usage tid p = if ltb tid (2 ^ 31) then record_event tid p else (none, p)

unfoldable pub record_deferred_sample : (tid call_trace_id : ℕ) → Profiler → Recorded × Profiler
unfolding count_sample count_skipped under_lock
record_deferred_sample tid call_trace_id p =
    under_lock tid skip_counted (λ i q. (some (i, call_trace_id), q)) (count_sample p)

unfoldable pub put_trace :
    (frames : List CallFrame) (truncated : Bool) (weight : ℕ) → Profiler → ℕ × Profiler
unfolding put
put_trace frames truncated weight p =
    let (call_trace_id, storage) = put p.call_trace_storage frames truncated weight in
    (call_trace_id, record p { call_trace_storage = storage })

unfoldable pub record_external_sample :
    (weight tid : ℕ) (frames : List CallFrame) (truncated : Bool) → Profiler → Recorded × Profiler
unfolding count_sample count_skipped put_trace under_lock
record_external_sample weight tid frames truncated p =
    let (call_trace_id, p') = put_trace frames truncated weight (count_sample p) in
    under_lock tid skip_counted (λ i q. (some (i, call_trace_id), q)) p'

-- A stack without frames gets the one that tells of the error.
abbrev pub or_error : (error_frame : CallFrame) → List CallFrame → List CallFrame
or_error error_frame [] = error_frame ∷ []
or_error error_frame (f ∷ frames) = f ∷ frames

-- What `record_sample` does under the lock `i`.
unfoldable pub sample_body :
    (error_frame : CallFrame) (frames : List CallFrame) (truncated : Bool)
    (counter call_trace_id i : ℕ)
    → Profiler
    → Recorded × Profiler
unfolding put_trace
sample_body error_frame frames truncated counter call_trace_id i p =
    let (id, p') = put_trace (or_error error_frame frames) truncated counter p in
    if not p.omit_stacktraces && call_trace_id == 0
    then (some (i, id), p')
    else (some (i, call_trace_id), p)

unfoldable pub record_sample :
    (error_frame : CallFrame) (frames : List CallFrame) (truncated : Bool)
    (counter tid call_trace_id : ℕ)
    → Profiler
    → Recorded × Profiler
unfolding count_sample count_skipped sample_body under_lock
record_sample error_frame frames truncated counter tid call_trace_id p =
    under_lock tid skip_counted (sample_body error_frame frames truncated counter call_trace_id)
      (count_sample p)

unfoldable pub put_unless_omitted : (frames : List CallFrame) (weight : ℕ) → Profiler → ℕ × Profiler
unfolding put_trace
put_unless_omitted frames weight p =
    if p.omit_stacktraces then (0, p) else put_trace frames false weight p

-- What `recordJVMTISample` returns, and what it gives to the recording.
pub record Jvmti : Type 0 where
  pub call_trace_id : ℕ
  pub recorded : Recorded

-- The frames are those of the JVMTI.
unfoldable pub record_jvmti_sample :
    (frames : List CallFrame) (counter tid : ℕ) (deferred : Bool) → Profiler → Jvmti × Profiler
unfolding count_sample count_skipped put_unless_omitted under_lock
record_jvmti_sample frames counter tid deferred p =
    under_lock tid (λ q. (record { call_trace_id = 0; recorded = none }, count_skipped q))
      (λ i q.
        let (id, q') = put_unless_omitted frames counter q in
        (record { call_trace_id = id; recorded = if deferred then none else some (i, id) }, q'))
      (count_sample p)
