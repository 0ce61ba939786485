-- ===== src/Profiler/Safety.antt =====
-- What holds after any sequence of calls of the profiler, whatever its surroundings answer.
use java_profiler.Base.{
  Bool, true, false, List, [], ◌∷◌, Option, none, some, ◌>>=◌, ◌≡◌, refl, ap, ◌∙◌, inl, inr,
}
use java_profiler.Arguments.{
  Arguments, Action, action_none, action_start, action_resume, action_stop, action_check,
  action_status, action_list, action_version,
}
use java_profiler.CallTraceStorage
use java_profiler.CallTraceStorage.Claim.{new-IsValid}
use java_profiler.Profiler.{Text, terminated, Profiler, Result, World, new_profiler}
use java_profiler.Profiler.Quiet.{IsQuiet}
use java_profiler.Profiler.Beginning.{IsActive, IsSound, IsOpen}
use java_profiler.Profiler.Running.{stop_running-Ends}
use java_profiler.Profiler.Control.{is_running, start}
use java_profiler.Profiler.Stopping.{stop, flush_jfr}
use java_profiler.Profiler.Action.{dump, check, run_internal, restart, last_stop, shutdown}
use java_profiler.Profiler.Keeping.{Kept, start-Kept, stop-Kept, check-Kept, flush-Kept}
use java_profiler.Profiler.Dumping.{bind-run, dump-Kept}

-- A call from the outside.
pub data Call (D : Type 0) : Type 0 where
  start_call : Arguments D → (reset : Bool) → Call D
  stop_call : Call D
  check_call : Arguments D → Call D
  flush_call : Call D
  dump_call : (path : Text) → Call D
  run_call : Arguments D → Action → Call D
  restart_call : Call D
  shutdown_call : Arguments D → Call D

unfoldable pub perform : {D : Type 0} → World → Call D → Profiler → Result
unfolding start stop check flush_jfr dump run_internal restart shutdown
perform w (start_call args reset) p = start w args reset p
perform w stop_call p = stop w p
perform w (check_call args) p = check w args p
perform w flush_call p = flush_jfr w p
perform w (dump_call path) p = dump w path p
perform w (run_call args action) p = run_internal w args action p
perform w restart_call p = restart w p
perform w (shutdown_call args) p = shutdown w args p

-- Calls one after another, each with what the surroundings answer to it.
unfoldable pub run : {D : Type 0} → List (World × Call D) → Profiler → Option Profiler
unfolding perform
run [] p = some p
run ((w, c) ∷ cs) p = perform w c p >>= (λ (_, p'). run cs p')

stop_dropped-Kept :
    (w : World) (p : Profiler) → IsSound p → Kept (stop w p >>= (λ (_, p'). some (none, p')))
stop_dropped-Kept w p s = let ((_, p'), at, s') = stop-Kept w p s in ((none, p'), bind-run _ at, s')

run_internal-Kept :
    {D : Type 0} (w : World) (args : Arguments D) (action : Action) (p : Profiler)
    → IsOpen w
    → IsSound p
    → Kept (run_internal w args action p)
unfolding run_internal
run_internal-Kept w args action_start p o s = start-Kept w args true p o s
run_internal-Kept w args action_resume p o s = start-Kept w args false p o s
run_internal-Kept w args action_stop p o s = stop_dropped-Kept w p s
run_internal-Kept w args action_check p o s = check-Kept w args p s
run_internal-Kept w args action_none p o s = ((none, p), refl, s)
run_internal-Kept w args action_status p o s = ((none, p), refl, s)
run_internal-Kept w args action_list p o s = ((none, p), refl, s)
run_internal-Kept w args action_version p o s = ((none, p), refl, s)

stop_recording-IsQuiet :
    (w : World) (p : Profiler)
    → IsActive p
    → (p' : Profiler) × (stop w p ≡ some (none, p')) × IsQuiet p'
unfolding stop
stop_recording-IsQuiet w p (r, on, _, _) =
    let (p', e, _, q) = stop_running-Ends w p r in (p', rw on e, q)

stop_action-run :
    {D : Type 0} (w : World) (args : Arguments D) (p p' : Profiler)
    → stop w p ≡ some (none, p')
    → run_internal w args action_stop p ≡ some (none, p')
unfolding run_internal
stop_action-run w args p p' e = bind-run _ e

shutdown-run :
    {D : Type 0} (w : World) (args : Arguments D) (p p' : Profiler)
    → last_stop w args (is_running p.state) p ≡ some (none, p')
    → shutdown w args p ≡ some (none, record p' { state = terminated })
unfolding shutdown
shutdown-run w args p p' e = bind-run _ e

-- After a shutdown the profiler is quiet and terminated.
shutdown-Quiet :
    {D : Type 0} (w : World) (args : Arguments D) (p : Profiler)
    → IsSound p
    → (p' : Profiler) × (shutdown w args p ≡ some (none, record p' { state = terminated }))
      × IsQuiet p'
shutdown-Quiet w args p (inl q) = (
  p,
  shutdown-run w args p p (ap (λ b. last_stop w args b p) q.inactive ∙ unfold last_stop in refl),
  q,
)
shutdown-Quiet w args p (inr (r, on, t, a)) =
    let (p', e, q) = stop_recording-IsQuiet w p (r, on, t, a) in
    (
      p',
      shutdown-run w args p p'
          (ap (λ b. last_stop w args b p) on ∙ unfold last_stop in stop_action-run w args p p' e),
      q,
    )

-- The state that a shutdown gives is quiet as well.
terminated-Quiet : (p : Profiler) → IsQuiet p → IsQuiet (record p { state = terminated })
terminated-Quiet p q = record {
  inactive = refl;
  unrecorded = q.unrecorded;
  closed = q.closed;
  stopped = q.stopped;
  disabled = q.disabled;
  unhooked = q.unhooked;
  silent = q.silent;
  free = q.free;
  stored = q.stored;
}

perform-Kept :
    {D : Type 0} (w : World) (c : Call D) (p : Profiler)
    → IsOpen w
    → IsSound p
    → Kept (perform w c p)
unfolding perform restart
perform-Kept w (start_call args reset) p o s = start-Kept w args reset p o s
perform-Kept w stop_call p o s = stop-Kept w p s
perform-Kept w (check_call args) p o s = check-Kept w args p s
perform-Kept w flush_call p o s = flush-Kept w p s
perform-Kept w (dump_call path) p o s = dump-Kept w path p s
perform-Kept w (run_call args action) p o s = run_internal-Kept w args action p o s
perform-Kept w restart_call p o s = stop-Kept w p s
perform-Kept w (shutdown_call args) p o s =
    let (p', e, q) = shutdown-Quiet w args p s in
    ((none, record p' { state = terminated }), e, inl (terminated-Quiet p' q))

abbrev pub AllOpen : {D : Type 0} → List (World × Call D) → Type 0
AllOpen [] = Unit
AllOpen ((w, c) ∷ cs) = IsOpen w × AllOpen cs

run-Sound :
    {D : Type 0} (cs : List (World × Call D)) (p : Profiler)
    → AllOpen cs
    → IsSound p
    → (p' : Profiler) × (run cs p ≡ some p') × IsSound p'
unfolding run
run-Sound [] p o s = (p, refl, s)
run-Sound ((w, c) ∷ cs) p (o, os) s =
    let ((_, p1), e, s1) = perform-Kept w c p o s in
    let (p2, e2, s2) = run-Sound cs p1 os s1 in (p2, bind-run _ e ∙ e2, s2)

new-Quiet : IsQuiet new_profiler
unfolding new_profiler
new-Quiet = record {
  inactive = refl;
  unrecorded = refl;
  closed = refl;
  stopped = λ _. refl;
  disabled = λ _. refl;
  unhooked = refl;
  silent = refl;
  free = λ _ _ _. refl;
  stored = (new-IsValid, unfold CallTraceStorage.new in refl);
}

-- From a new profiler, for any sequence of calls (starts, stops, checks, flushes, dumps, actions,
-- restarts and shutdowns) with any answers of the surroundings in which the output file can be
-- opened: every call returns, and afterwards the profiler either runs with a recording, at least one
-- started engine, and no engine started that the event mask does not ask for; or it has no recording,
-- every engine is stopped and disabled, and neither the dlopen hook nor the thread events are on. The
-- sixteen locks of the samples are free, and the call trace storage is valid and its lock free.
pub run-new_profiler-Sound :
    {D : Type 0} (cs : List (World × Call D))
    → AllOpen cs
    → (p : Profiler) × (run cs new_profiler ≡ some p) × IsSound p
run-new_profiler-Sound cs o = run-Sound cs new_profiler o (inl new-Quiet)
