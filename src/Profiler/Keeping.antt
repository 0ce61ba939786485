-- ===== src/Profiler/Keeping.antt =====
-- Each call of the profiler returns, and keeps the invariant.
use java_profiler.Base.{
  ℕ, Bool, true, not, ◌&&◌, ◌||◌, if◌then◌else◌, none, some, ◌≡◌, refl, inl, inr, bytes,
}
use java_profiler.Arguments.{Arguments, is_negative}
use java_profiler.Profiler.{
  Text, Error, State, new, idle, running, terminated, perf_events, same, Profiler, Result, World,
}
use java_profiler.Profiler.Holding.{unlock_held, spin_free, all_locked-Gives}
use java_profiler.Profiler.Quiet.{IsQuiet, Ends, and_then-Ends, choice}
use java_profiler.Profiler.Beginning.{IsRecording, IsActive, IsSound, IsOpen}
use java_profiler.Profiler.Running.{start-Ends, stop_running-Ends}
use java_profiler.Profiler.Recorder.{flush_recording}
use java_profiler.Profiler.Select.{
  is_null, select_cpu_engine, select_wall_engine, select_alloc_engine, check_jvm_capabilities,
}
use java_profiler.Profiler.Control.{is_running, is_started, start}
use java_profiler.Profiler.Stopping.{update_thread_names, stop, flush_jfr, flush_jfr_body}
use java_profiler.Profiler.Engines.{returns, is_dwarf, is_lbr, is_vm_or_more}
use java_profiler.Profiler.Action.{check_cpu, check_wall, check_alloc, check_cstack, check}

-- A call returns, and the profiler is sound.
abbrev pub Kept : Result → Type 0
Kept r = (x : Error × Profiler) × (r ≡ some x) × IsSound x.1

running-started : (s : State) → is_running s ≡ true → is_started s ≡ true
running-started running h = refl
running-started new h = absurd (cc)
running-started idle h = absurd (cc)
running-started terminated h = absurd (cc)

pub Ends-Kept : {r : Result} → Ends IsActive IsQuiet r → Kept r
Ends-Kept ((none, p), e, a) = ((none, p), e, inr a)
Ends-Kept ((some message, p), e, q) = ((some message, p), e, inl q)

quiet-Kept : {r : Result} → Ends IsQuiet IsQuiet r → Kept r
quiet-Kept ((none, p), e, q) = ((none, p), e, inl q)
quiet-Kept ((some message, p), e, q) = ((some message, p), e, inl q)

pub refused-Kept :
    (b : Bool) (message : Text) (p : Profiler) (r : Result)
    → b ≡ true
    → IsSound p
    → Kept (if b then returns message p else r)
refused-Kept b message p r h s = ((some message, p), rw h refl, s)

pub start-Kept :
    {D : Type 0} (w : World) (args : Arguments D) (reset : Bool) (p : Profiler)
    → IsOpen w
    → IsSound p
    → Kept (start w args reset p)
start-Kept w args reset p open_ (inl q) = Ends-Kept (start-Ends w args reset p open_ q)
start-Kept w args reset p open_ (inr (r, run, on, any)) =
    unfold start in
    refused-Kept (is_started p.state) _ p _ (running-started p.state run) (inr (r, run, on, any))

pub stop-Kept : (w : World) (p : Profiler) → IsSound p → Kept (stop w p)
unfolding stop
stop-Kept w p s =
    choice Kept (is_running p.state)
      (λ run. elim s [
        | inl q ↦ absurd (let off = q.inactive in cc)
        | inr (r, _, _, _) ↦ let (p', e, _, q) = stop_running-Ends w p r in ((none, p'), e, inl q)
      ])
      (λ _. ((some (bytes "Profiler is not active"), p), refl, s))

checked-Ends : (error : Error) (p : Profiler) → IsQuiet p → Ends IsQuiet IsQuiet (some (error, p))
checked-Ends none p q = ((none, p), refl, q)
checked-Ends (some message) p q = ((some message, p), refl, q)

check_cpu-Ends :
    {D : Type 0} (w : World) (args : Arguments D) (p : Profiler)
    → IsQuiet p
    → Ends IsQuiet IsQuiet (check_cpu w args p)
unfolding check_cpu
check_cpu-Ends w args p q =
    choice (Ends IsQuiet IsQuiet) (not (is_null args.event) || not (is_negative args.cpu))
      (λ _.
        checked-Ends (w.check (select_cpu_engine w args))
          (record p { cpu_engine = select_cpu_engine w args }) q)
      (λ _. ((none, p), refl, q))

check_wall-Ends :
    {D : Type 0} (w : World) (args : Arguments D) (p : Profiler)
    → IsQuiet p
    → Ends IsQuiet IsQuiet (check_wall w args p)
unfolding check_wall
check_wall-Ends w args p q =
    choice (Ends IsQuiet IsQuiet) (not (is_negative args.wall))
      (λ _.
        checked-Ends (w.check (select_wall_engine w args))
          (record p { wall_engine = select_wall_engine w args }) q)
      (λ _. ((none, p), refl, q))

check_alloc-Ends :
    {D : Type 0} (w : World) (args : Arguments D) (p : Profiler)
    → IsQuiet p
    → Ends IsQuiet IsQuiet (check_alloc w args p)
unfolding check_alloc
check_alloc-Ends w args p q =
    choice (Ends IsQuiet IsQuiet) (not (is_negative args.memory))
      (λ _.
        checked-Ends (w.check (select_alloc_engine w))
          (record p { alloc_engine = select_alloc_engine w }) q)
      (λ _. ((none, p), refl, q))

check_cstack-Ends :
    {D : Type 0} (w : World) (args : Arguments D) (p : Profiler)
    → IsQuiet p
    → Ends IsQuiet IsQuiet (check_cstack w args p)
unfolding check_cstack
check_cstack-Ends w args p q =
    choice (Ends IsQuiet IsQuiet) (is_dwarf args.cstack && not w.dwarf_supported)
      (λ _. ((some (bytes "DWARF unwinding is not supported on this platform"), p), refl, q))
      (λ _.
        choice (Ends IsQuiet IsQuiet) (is_lbr args.cstack && not (same p.cpu_engine perf_events))
          (λ _. ((some (bytes "Branch stack is supported only with PMU events"), p), refl, q))
          (λ _.
            choice (Ends IsQuiet IsQuiet)
              (is_vm_or_more p.cstack && not (w.has_stack_structs && w.linux))
              (λ _. (
                (some (bytes "VMStructs stack walking is not supported on this JVM/platform"), p),
                refl,
                q,
              ))
              (λ _. ((none, p), refl, q))))

pub check-Kept :
    {D : Type 0} (w : World) (args : Arguments D) (p : Profiler) → IsSound p → Kept (check w args p)
check-Kept w args p (inr (r, run, on, any)) =
    unfold check in
    refused-Kept (is_started p.state) _ p _ (running-started p.state run) (inr (r, run, on, any))
check-Kept w args p (inl q) =
    unfold check in
    choice Kept (is_started p.state)
      (λ _. ((some (bytes "Profiler already started"), p), refl, inl q))
      (λ _. quiet-Kept (
        and_then-Ends _ (checked-Ends (check_jvm_capabilities w) p q) (λ p q.
          and_then-Ends _ (check_cpu-Ends w args p q) (λ p q.
            and_then-Ends _ (check_wall-Ends w args p q)
              (λ p q. and_then-Ends _ (check_alloc-Ends w args p q) (check_cstack-Ends w args))))))

flush_body-run :
    (p : Profiler)
    → IsRecording p
    → (locks : ℕ → ℕ)
    → flush_jfr_body (record p { locks = locks })
      ≡ some (none, record p { locks = locks; jfr = record p.jfr { rec_lock = 0 } })
unfolding flush_jfr_body flush_recording
flush_body-run p r locks = rw (r.recorded, spin_free r.opened, unlock_held {n = 1} refl) refl

pub flush-Kept : (w : World) (p : Profiler) → IsSound p → Kept (flush_jfr w p)
unfolding flush_jfr update_thread_names
flush-Kept w p s =
    choice Kept (is_running p.state)
      (λ run. elim s [
        | inl q ↦ absurd (let off = q.inactive in cc)
        | inr (r, a, b, c) ↦
            let p1 = update_thread_names w p in
            let (locks, at, free) =
              all_locked-Gives flush_jfr_body p1
                (record p1 { jfr = record p1.jfr { rec_lock = 0 } }) none r.free
                (flush_body-run p1 r) in
            (
              (none, _),
              at,
              inr (
                record {
                  recorded = r.recorded;
                  opened = refl;
                  covered = r.covered;
                  others_disabled = r.others_disabled;
                  free = free;
                  stored = r.stored;
                },
                a,
                b,
                c,
              ),
            )
      ])
      (λ _. ((some (bytes "Profiler is not active"), p), refl, s))
