-- ===== src/ProfiledThread/Crashes.antt =====
-- The nesting of crash handlers, and the span of a thread, under every operation.
use java_profiler.Base.{
  ℕ, ◌+◌, ◌-◌, ◌^◌, ◌%◌, ◌≤◌, ◌<◌, Bool, true, false, ◌&&◌, not, ◌==◌, ltb, if◌then◌else◌, Option,
  List, [], ◌∷◌, ◌≡◌, refl, arith,
}
use java_profiler.ProfiledThread.{
  ProfiledThread, new, Operation, note, look_up, record_trace, enter, exit, reset, failures,
  unwinding, perform, is_same_sample, lookup_wallclock_call_trace_id, is_deep_crash_handler,
}

unfoldable pub perform_all : List Operation → ProfiledThread → ProfiledThread
perform_all [] t = t
perform_all (o ∷ os) t = perform_all os (perform o t)

pub record Inv (t : ProfiledThread) : Type 0 where
  pub shallow : t.crash_depth ≤ 5
  pub spanless : t.span_id ≡ 0

either-Inv :
    {A : Type 0} (b : Bool) (x y : A × ProfiledThread)
    → (b ≡ true → Inv x.1)
    → Inv y.1
    → Inv (if b then x else y).1
either-Inv true x y inv _ = inv refl
either-Inv false x y _ inv = inv

choice-Inv :
    (b : Bool) (x y : ProfiledThread) → (b ≡ true → Inv x) → Inv y → Inv (if b then x else y)
choice-Inv true x y inv _ = inv refl
choice-Inv false x y _ inv = inv

entered : (n : ℕ) → ltb n 5 ≡ true → (n + 1) % 2 ^ 32 ≤ 5
entered n h = ground arith

perform-Inv : (o : Operation) (t : ProfiledThread) → Inv t → Inv (perform o t)
unfolding perform
perform-Inv (note e) t inv = record { shallow = inv.shallow; spanless = inv.spanless }
perform-Inv (look_up pc e s) t inv =
    either-Inv (is_same_sample pc e s t) (t.call_trace_id, t)
      (0, record t { wall_epoch = t.cpu_epoch; pc = pc; recording_epoch = e }) (λ _. inv)
      (record { shallow = inv.shallow; spanless = inv.spanless })
perform-Inv (record_trace id) t inv = record { shallow = inv.shallow; spanless = inv.spanless }
perform-Inv enter t inv =
    either-Inv (ltb t.crash_depth 5) (true, record t { crash_depth = (t.crash_depth + 1) % 2 ^ 32 })
      (false, t) (λ h. record { shallow = entered t.crash_depth h; spanless = inv.spanless }) inv
perform-Inv exit t inv =
    choice-Inv (ltb 0 t.crash_depth) (record t { crash_depth = t.crash_depth - 1 }) t
      (λ h. record { shallow = omega (arith, inv.shallow); spanless = inv.spanless }) inv
perform-Inv reset t inv = record { shallow = omega arith; spanless = inv.spanless }
perform-Inv (failures true) t inv = record { shallow = inv.shallow; spanless = inv.spanless }
perform-Inv (failures false) t inv = inv
perform-Inv (unwinding b) t inv = record { shallow = inv.shallow; spanless = inv.spanless }

pub perform_all-Inv : (os : List Operation) (t : ProfiledThread) → Inv t → Inv (perform_all os t)
unfolding perform_all
perform_all-Inv [] t inv = inv
perform_all-Inv (o ∷ os) t inv = perform_all-Inv os (perform o t) (perform-Inv o t inv)

pub new-Inv : (buffer_pos : Option ℕ) (tid : ℕ) → Inv (new buffer_pos tid)
unfolding new
new-Inv p tid = record { shallow = omega arith; spanless = refl }

-- After any operations on a new thread, in any order, the depth of crash handlers is at most 5, and
-- isDeepCrashHandler answers false.
pub is_deep_crash_handler-perform_all :
    (buffer_pos : Option ℕ) (tid : ℕ) (os : List Operation)
    → ((perform_all os (new buffer_pos tid)).crash_depth ≤ 5)
      × (is_deep_crash_handler (perform_all os (new buffer_pos tid)) ≡ false)
unfolding is_deep_crash_handler
is_deep_crash_handler-perform_all p tid os =
    let inv = perform_all-Inv os (new p tid) (new-Inv p tid) in
    (inv.shallow, ground (arith, inv.shallow))

middle_false : (a b c d : Bool) → (a && b && false && c && d) ≡ false
middle_false true true c d = refl
middle_false true false c d = refl
middle_false false b c d = refl

is_same_sample_other :
    (pc e s : ℕ) (t : ProfiledThread) → (t.span_id == s) ≡ false → is_same_sample pc e s t ≡ false
unfolding is_same_sample
is_same_sample_other pc e s t h = rw h (
    middle_false (t.wall_epoch == t.cpu_epoch) (t.pc == pc) (t.recording_epoch == e)
      (not (t.call_trace_id == 0)))

either_second : {b : Bool} (x y : ℕ × ProfiledThread) → b ≡ false → (if b then x else y).0 ≡ y.0
either_second x y h = rw h refl

lookup_other_span :
    (pc e s : ℕ) (t : ProfiledThread)
    → (t.span_id == s) ≡ false
    → (lookup_wallclock_call_trace_id pc e s t).0 ≡ 0
unfolding lookup_wallclock_call_trace_id
lookup_other_span pc e s t h =
    either_second (t.call_trace_id, t) (0, _) (is_same_sample_other pc e s t h)

-- After any operations on a new thread, a look-up of the call trace of a thread that is in a span, so
-- that the span is not 0, answers 0: no sample is collapsed with the one before.
pub lookup_in_span :
    (buffer_pos : Option ℕ) (tid : ℕ) (os : List Operation) (pc recording_epoch span_id : ℕ)
    → 0 < span_id
    → (lookup_wallclock_call_trace_id pc recording_epoch span_id
        (perform_all os (new buffer_pos tid))).0
      ≡ 0
lookup_in_span p tid os pc e s h =
    let t = perform_all os (new p tid) in
    let inv = perform_all-Inv os (new p tid) (new-Inv p tid) in
    lookup_other_span pc e s t (ground (arith, inv.spanless))
