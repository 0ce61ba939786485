-- ===== src/Profiler/Running.antt =====
-- `start` and `stop` keep the invariant: the profiler is quiet, or it has a recording and an engine runs.
use java_profiler.Base.{ℕ, Bool, true, false, ◌||◌, ◌==◌, none, some, ◌≡◌, refl, ap, ◌∙◌, bytes}
use java_profiler.Arguments.{Arguments}
use java_profiler.Profiler.{Error, idle, Engine, same, some_event, Profiler, Result, World}
use java_profiler.Profiler.Locks.{all_locked}
use java_profiler.Profiler.Holding.{IsFree, spin_free, all_locked-Gives}
use java_profiler.Profiler.Quiet.{
  IsQuiet, Ends, and_then-Ends, choice, reset_data-Ends, fit_buffers-Ends, choose_engines-Ends,
}
use java_profiler.Profiler.Started.{activate_all-AllTried, not_on, stop_engines-stopped}
use java_profiler.Profiler.Recorder.{stop_recording}
use java_profiler.Profiler.Select.{check_jvm_capabilities, mask_of}
use java_profiler.Profiler.Control.{
  and_then, is_running, is_started, stop_jfr, finish_start, start_activated, start_events,
  start_checked, start,
}
use java_profiler.Profiler.Stopping.{stop_engines, update_thread_names, stop_running}
use java_profiler.Profiler.Engines.{switch_engines, switch_library_trap, disable, activate_all}
use java_profiler.Profiler.Beginning.{
  IsRecording, IsActive, IsOpen, disable-Quiet, IsBegun, start_jfr-Ends,
}

stop_jfr-run :
    (p : Profiler)
    → p.jfr.recording ≡ true
    → p.jfr.rec_lock ≡ 0
    → stop_jfr p ≡ some (none, record p { jfr = record p.jfr { recording = false; rec_lock = 1 } })
unfolding stop_jfr stop_recording
stop_jfr-run p a b = rw (a, spin_free b) refl

-- The recording is stopped under all locks.
closed :
    (p : Profiler)
    → p.jfr.recording ≡ true
    → p.jfr.rec_lock ≡ 0
    → IsFree p.locks
    → (locks : ℕ → ℕ) × (all_locked stop_jfr p
        ≡ some (
          none,
          record p { jfr = record p.jfr { recording = false; rec_lock = 1 }; locks = locks },
        ))
      × IsFree locks
closed p a b free =
    all_locked-Gives stop_jfr p
      (record p { jfr = record p.jfr { recording = false; rec_lock = 1 } }) none free
      (λ locks. stop_jfr-run (record p { locks = locks }) a b)

finish_start-Ends :
    (w : World) (b : Bool) (p : Profiler)
    → IsRecording p
    → is_running p.state ≡ false
    → p.thread_events ≡ false
    → (b ≡ false → (e : Engine) → p.started e ≡ true → ⊥)
    → (b ≡ true → (e : Engine) × (p.started e ≡ true))
    → Ends IsActive IsQuiet (finish_start w b p)
unfolding finish_start
finish_start-Ends w true p r calm silent off on = ((none, _), refl, (r, refl, refl, on refl))
finish_start-Ends w false p r calm silent off on =
    let (locks, run, free) = closed (disable p) r.recorded r.opened r.free in
    and_then-Ends {Q = IsQuiet} _
      (
        (none, _),
        run,
        disable-Quiet
            (record p { jfr = record p.jfr { recording = false; rec_lock = 1 }; locks = locks })
            calm refl refl (λ e. not_on (off refl e)) r.others_disabled silent free r.stored,
      )
      (λ p q. ((some _, p), refl, q))

start_activated-Ends :
    (w : World) (p : Profiler) → IsBegun p → Ends IsActive IsQuiet (start_activated w p)
unfolding start_activated
start_activated-Ends w p (r, calm, silent, off) =
    let (s, a, e, t) = activate_all-AllTried w p off in
    rw e (
      finish_start-Ends w (activate_all w p).0 (record p { started = s; alloc_engine = a })
        (record {
          recorded = r.recorded;
          opened = r.opened;
          covered = t.covered;
          others_disabled = r.others_disabled;
          free = r.free;
          stored = r.stored;
        })
        calm silent t.idle t.busy)

start_events-Ends :
    {D : Type 0} (w : World) (args : Arguments D) (reset : Bool) (p : Profiler)
    → IsOpen w
    → IsQuiet p
    → Ends IsActive IsQuiet (start_events w args reset p)
unfolding start_events
start_events-Ends w args reset p open_ q =
    and_then-Ends _
      (choice (Ends IsQuiet IsQuiet) (reset || p.start_time == 0) (λ _. reset_data-Ends p q)
        (λ _. ((none, p), refl, q)))
      (λ p q. and_then-Ends _ (fit_buffers-Ends w args.jstackdepth p q) (λ p q.
        and_then-Ends _ (choose_engines-Ends w args p q)
          (λ p q. and_then-Ends _ (start_jfr-Ends w args p open_ q) (start_activated-Ends w))))

start_checked-Ends :
    {D : Type 0} (w : World) (args : Arguments D) (reset : Bool) (p : Profiler)
    → IsOpen w
    → IsQuiet p
    → Ends IsActive IsQuiet (start_checked w args reset p)
unfolding start_checked
start_checked-Ends w args reset p open_ q =
    let p' = record p { omit_stacktraces = args.lightweight; event_mask = mask_of args } in
    choice (Ends IsActive IsQuiet) (some_event (mask_of args))
      (λ _. start_events-Ends w args reset p' open_ q)
      (λ _. ((some (bytes "No profiling events specified"), p'), refl, q))

checked-Ends : (error : Error) (p : Profiler) → IsQuiet p → Ends IsQuiet IsQuiet (some (error, p))
checked-Ends none p q = ((none, p), refl, q)
checked-Ends (some message) p q = ((some message, p), refl, q)

-- A start of a quiet profiler returns: without an error it records, and an engine runs; with one it is
-- quiet again.
pub start-Ends :
    {D : Type 0} (w : World) (args : Arguments D) (reset : Bool) (p : Profiler)
    → IsOpen w
    → IsQuiet p
    → Ends IsActive IsQuiet (start w args reset p)
unfolding start
start-Ends w args reset p open_ q =
    choice (Ends IsActive IsQuiet) (is_started p.state)
      (λ _. ((some (bytes "Profiler already started"), p), refl, q))
      (λ _.
        and_then-Ends _ (checked-Ends (check_jvm_capabilities w) p q)
          (λ p q. start_checked-Ends w args reset p open_ q))

abbrev silenced : World → Profiler → Profiler
silenced w p =
    update_thread_names w (record (switch_library_trap false p) { thread_events = false })

stop_running-steps :
    (w : World) (p : Profiler)
    → stop_running w p
      ≡ and_then
          (all_locked stop_jfr (silenced w (stop_engines (switch_engines false p))))
          (λ p. some (none, record p { state = idle }))
unfolding stop_running
stop_running-steps w p = refl

then-run :
    {r : Result} {p : Profiler} (f : Profiler → Profiler)
    → r ≡ some (none, p)
    → and_then r (λ p. some (none, f p)) ≡ some (none, f p)
unfolding and_then
then-run f e = rw e refl

-- A stop of a profiler that records returns without an error, and leaves it quiet and idle.
pub stop_running-Ends :
    (w : World) (p : Profiler)
    → IsRecording p
    → (p' : Profiler) × (stop_running w p ≡ some (none, p')) × (p'.state ≡ idle) × IsQuiet p'
unfolding switch_engines switch_library_trap update_thread_names
stop_running-Ends w p r =
    let (s, e, off) = stop_engines-stopped (switch_engines false p) r.covered in
    let p1 = silenced w (record (switch_engines false p) { started = s }) in
    let (locks, run, free) = closed p1 r.recorded r.opened r.free in
    let p2 = record p1 { jfr = record p1.jfr { recording = false; rec_lock = 1 }; locks = locks } in
    (
      record p2 { state = idle },
      stop_running-steps w p
          ∙ ap
              (λ x.
                and_then (all_locked stop_jfr (silenced w x))
                  (λ p. some (none, record p { state = idle })))
              e
          ∙ then-run (λ p. record p { state = idle }) run,
      refl,
      record {
        inactive = refl;
        unrecorded = refl;
        closed = refl;
        stopped = off;
        disabled = λ x.
            choice (λ (v : Bool). v ≡ false) (same x p.cpu_engine || same x p.wall_engine)
              (λ _. refl) (λ off. r.others_disabled x off);
        unhooked = refl;
        silent = refl;
        free = free;
        stored = r.stored;
      },
    )
