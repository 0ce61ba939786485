-- ===== src/Profiler/Quiet.antt =====
-- The invariant of the profiler between operations, and the part of `start` before the recording begins.
use java_profiler.Base.{
  ℕ, zero, suc, ◌+◌, Bool, true, false, ◌==◌, if◌then◌else◌, none, some, ◌≡◌, refl, ◌∙◌,
}
use java_profiler.Arguments.{Arguments}
use java_profiler.CallTraceStorage.{CallTraceStorage}
use java_profiler.CallTraceStorage.Clearing.{IsIdle, clear, clear-IsCleared}
use java_profiler.Profiler.{
  Text, Error, State, Engine, concurrency_level, FlightRecorder, Profiler, Result, World,
}
use java_profiler.Profiler.Locks.{all_locked}
use java_profiler.Profiler.Holding.{IsFree, all_locked-Gives}
use java_profiler.Profiler.Control.{
  and_then, is_running, clear_storage, clear_class_map, reset_data, allocate_buffers, fit_buffers,
  extra_frames,
}
use java_profiler.Profiler.Engines.{refuse_vm, choose_engines}

-- Nothing runs: no recording, no engine started or enabled, no hook, and no thread events.
pub record AtRest (state : State) (jfr : FlightRecorder) (started events : Engine → Bool)
    (library_trap thread_events : Bool) (locks : ℕ → ℕ) (storage : CallTraceStorage) : Type 0 where
  pub inactive : is_running state ≡ false
  pub unrecorded : jfr.recording ≡ false
  pub closed : jfr.rec_lock ≡ 1
  pub stopped : (e : Engine) → started e ≡ false
  pub disabled : (e : Engine) → events e ≡ false
  pub unhooked : library_trap ≡ false
  pub silent : thread_events ≡ false
  pub free : IsFree locks
  pub stored : IsIdle storage

abbrev pub IsQuiet : Profiler → Type 0
IsQuiet p =
    AtRest p.state p.jfr p.started p.events p.library_trap p.thread_events p.locks
      p.call_trace_storage

-- A result that is there, and what holds of it without and with an error.
abbrev pub Outcome : (Q E : Profiler → Type 0) → Error × Profiler → Type 0
Outcome Q E (none, p) = Q p
Outcome Q E (some message, p) = E p

abbrev pub Ends : (Q E : Profiler → Type 0) → Result → Type 0
Ends Q E r = (x : Error × Profiler) × (r ≡ some x) × Outcome Q E x

and_then-none :
    {r : Result} {p : Profiler} (k : Profiler → Result) → r ≡ some (none, p) → and_then r k ≡ k p
unfolding and_then
and_then-none k e = rw e refl

and_then-some :
    {r : Result} {p : Profiler} {message : Text} (k : Profiler → Result)
    → r ≡ some (some message, p)
    → and_then r k ≡ some (some message, p)
unfolding and_then
and_then-some k e = rw e refl

pub and_then-Ends :
    {Q Q' E : Profiler → Type 0} {r : Result} (k : Profiler → Result)
    → Ends Q E r
    → ((p : Profiler) → Q p → Ends Q' E (k p))
    → Ends Q' E (and_then r k)
and_then-Ends k ((none, p), e, q) next = let (x, at, o) = next p q in (x, and_then-none k e ∙ at, o)
and_then-Ends k ((some message, p), e, q) next = ((some message, p), and_then-some k e, q)

pub choice :
    {A : Type 0} (P : A → Type 0) (b : Bool) {x y : A}
    → (b ≡ true → P x)
    → (b ≡ false → P y)
    → P (if b then x else y)
choice P true p q = p refl
choice P false p q = q refl

clear_storage-run :
    (p : Profiler) {storage : CallTraceStorage}
    → clear p.call_trace_storage ≡ some storage
    → clear_storage p ≡ some (none, record p { call_trace_storage = storage })
unfolding clear_storage
clear_storage-run p e = rw e refl

-- The traces are dropped under all locks.
pub locked_clear-Ends :
    (p : Profiler) → IsQuiet p → Ends IsQuiet IsQuiet (all_locked clear_storage p)
locked_clear-Ends p q =
    let (storage, at, cleared) = clear-IsCleared p.call_trace_storage q.stored.0 q.stored.1 in
    let after = record p { call_trace_storage = storage } in
    let (locks, run, free) =
      all_locked-Gives clear_storage p after none q.free
        (λ locks. clear_storage-run (record p { locks = locks }) at) in
    (
      (none, record after { locks = locks }),
      run,
      record {
        inactive = q.inactive;
        unrecorded = q.unrecorded;
        closed = q.closed;
        stopped = q.stopped;
        disabled = q.disabled;
        unhooked = q.unhooked;
        silent = q.silent;
        free = free;
        stored = (cleared.valid, cleared.lock_free);
      },
    )

pub reset_data-Ends : (p : Profiler) → IsQuiet p → Ends IsQuiet IsQuiet (reset_data p)
unfolding reset_data clear_class_map
reset_data-Ends p q =
    and_then-Ends _
      (choice (Ends IsQuiet IsQuiet) p.omit_stacktraces (λ _. ((none, _), refl, q))
        (λ _. locked_clear-Ends _ q))
      (λ p' q'. ((none, _), refl, q'))

allocate_buffers-Quiet :
    (w : World) (elements left i : ℕ) (p : Profiler)
    → IsQuiet p
    → Outcome IsQuiet IsQuiet (allocate_buffers w elements left i p)
unfolding allocate_buffers
allocate_buffers-Quiet w elements zero i p q = q
allocate_buffers-Quiet w elements (suc left) i p q =
    choice (Outcome IsQuiet IsQuiet) (w.allocates i)
      (λ _. allocate_buffers-Quiet w elements left (i + 1) _ q) (λ _. q)

pub fit_buffers-Ends :
    (w : World) (jstackdepth : ℕ) (p : Profiler)
    → IsQuiet p
    → Ends IsQuiet IsQuiet (fit_buffers w jstackdepth p)
unfolding fit_buffers
fit_buffers-Ends w depth p q =
    choice (Ends IsQuiet IsQuiet) (p.max_stack_depth == depth) (λ _. ((none, p), refl, q))
      (λ _. (
        _,
        refl,
        allocate_buffers-Quiet w (depth + extra_frames) concurrency_level 0
            (record p { max_stack_depth = depth }) q,
      ))

refuse_vm-Ends :
    (refused : Bool) (p : Profiler) → IsQuiet p → Ends IsQuiet IsQuiet (refuse_vm refused p)
unfolding refuse_vm
refuse_vm-Ends true p q = ((some _, p), refl, q)
refuse_vm-Ends false p q = ((none, p), refl, q)

pub choose_engines-Ends :
    {D : Type 0} (w : World) (args : Arguments D) (p : Profiler)
    → IsQuiet p
    → Ends IsQuiet IsQuiet (choose_engines w args p)
unfolding choose_engines
choose_engines-Ends w args p q = refuse_vm-Ends _ _ q
