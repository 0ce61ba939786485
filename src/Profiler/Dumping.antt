-- ===== src/Profiler/Dumping.antt =====
-- A dump returns, and keeps the invariant.
use java_profiler.Base.{
  ℕ, ◌+◌, ◌%◌, ◌^◌, true, false, not, if◌then◌else◌, Option, none, some, ◌>>=◌, ◌≡◌, refl, ◌∙◌,
  Bool-cases, inl, inr, bytes, str_equal,
}
use java_profiler.CallTraceStorage.{CallTraceStorage}
use java_profiler.CallTraceStorage.Clearing.{IsIdle, IsCleared, clear-IsCleared}
use java_profiler.Dictionary
use java_profiler.Profiler.{Text, Error, FlightRecorder, Profiler, World}
use java_profiler.Profiler.Holding.{unlock_held, spin_free, all_locked-Gives}
use java_profiler.Profiler.Quiet.{choice}
use java_profiler.Profiler.Beginning.{IsRecording, IsActive, IsSound}
use java_profiler.Profiler.Recorder.{dump_recording}
use java_profiler.Profiler.Control.{is_running, clear_storage, clear_class_map}
use java_profiler.Profiler.Stopping.{update_thread_names}
use java_profiler.Profiler.Action.{
  drop_traces, dump_rest, dump_locked, dump_running, has_started, dump,
}
use java_profiler.Profiler.Keeping.{Kept}

-- The error of a dump under the locks.
abbrev pub dump_error : (path : Text) → Profiler → Error
dump_error path p =
    if str_equal path p.jfr.filename
    then some (bytes "Can not dump recording to itself. Provide a different file name!")
    else none

pub dump_recording-run :
    (path : Text) (r : FlightRecorder)
    → r.recording ≡ true
    → r.rec_lock ≡ 0
    → dump_recording path r
      ≡ some (
        (if str_equal path r.filename
            then some (bytes "Can not dump recording to itself. Provide a different file name!")
            else none),
        record r { rec_lock = 0 },
      )
unfolding dump_recording
dump_recording-run path r a b = rw (a, spin_free b, unlock_held {n = 1} refl) refl

pub drop_traces-run :
    (p : Profiler)
    → IsIdle p.call_trace_storage
    → (storage : CallTraceStorage) × ((locks : ℕ → ℕ)
        → drop_traces (record p { locks = locks })
          ≡ some (none, record p { locks = locks; call_trace_storage = storage }))
      × IsIdle storage
      × (p.omit_stacktraces ≡ false → IsCleared storage)
unfolding drop_traces clear_storage
drop_traces-run p v =
    let (storage, at, cleared) = clear-IsCleared p.call_trace_storage v.0 v.1 in
    elim (Bool-cases p.omit_stacktraces) [
      | inl h ↦ (p.call_trace_storage, λ locks. rw h refl, v, λ off. absurd (cc))
      | inr h ↦
          (storage, λ locks. rw (h, at) refl, (cleared.valid, cleared.lock_free), λ _. cleared)
    ]

pub bind-run :
    {A B : Type 0} {r : Option A} {x : A} (f : A → Option B) → r ≡ some x → (r >>= f) ≡ f x
bind-run f e = rw e refl

dump_rest-run :
    (p : Profiler) (error : Error) (jfr : FlightRecorder) {after : Profiler}
    → drop_traces (record p { jfr = jfr; epoch = (p.epoch + 1) % 2 ^ 32 }) ≡ some (none, after)
    → dump_rest p (error, jfr) ≡ some (error, after)
unfolding dump_rest
dump_rest-run p error jfr e = bind-run _ e

pub dump_locked-run :
    (path : Text) (p after : Profiler) (locks : ℕ → ℕ)
    → IsRecording p
    → drop_traces (record p {
      locks = locks;
      jfr = record p.jfr { rec_lock = 0 };
      epoch = (p.epoch + 1) % 2 ^ 32;
    })
      ≡ some (none, after)
    → dump_locked path (record p { locks = locks }) ≡ some (dump_error path p, after)
unfolding dump_locked
dump_locked-run path p after locks r e =
    bind-run _ (dump_recording-run path p.jfr r.recorded r.opened)
    ∙ dump_rest-run (record p { locks = locks }) (dump_error path p) (record p.jfr { rec_lock = 0 })
        e

-- What a dump of an active profiler leaves.
pub dump_running-Gives :
    (w : World) (path : Text) (p : Profiler)
    → IsActive p
    → (p' : Profiler) × (dump_running w path p ≡ some (dump_error path p, p'))
      × IsActive p'
      × (p.omit_stacktraces ≡ false → IsCleared p'.call_trace_storage)
      × (p'.class_map ≡ Dictionary.clear p.class_map)
unfolding dump_running update_thread_names clear_class_map
dump_running-Gives w path p (r, a, b, c) =
    let p1 = update_thread_names w p in
    let p2 = record p1 { jfr = record p1.jfr { rec_lock = 0 }; epoch = (p1.epoch + 1) % 2 ^ 32 } in
    let (storage, dropped, v, cleared) = drop_traces-run p2 r.stored in
    let (locks, at, free) =
      all_locked-Gives (dump_locked path) p1 (record p2 { call_trace_storage = storage })
        (dump_error path p1) r.free (λ locks. dump_locked-run path p1 _ locks r (dropped locks)) in
    (
      _,
      bind-run _ at,
      (
        record {
          recorded = r.recorded;
          opened = refl;
          covered = r.covered;
          others_disabled = r.others_disabled;
          free = free;
          stored = v;
        },
        a,
        b,
        c,
      ),
      cleared,
      refl,
    )

pub dump-Kept : (w : World) (path : Text) (p : Profiler) → IsSound p → Kept (dump w path p)
unfolding dump
dump-Kept w path p s =
    choice Kept (not (has_started p.state))
      (λ _. ((some (bytes "Profiler has not started"), p), refl, s))
      (λ _.
        choice Kept (is_running p.state)
          (λ run. elim s [
            | inl q ↦ absurd (let off = q.inactive in cc)
            | inr active ↦
                let (p', e, active', _, _) = dump_running-Gives w path p active in
                ((dump_error path p, p'), e, inr active')
          ])
          (λ _. ((none, p), refl, s)))
