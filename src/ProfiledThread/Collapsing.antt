-- ===== src/ProfiledThread/Collapsing.antt =====
-- Wall-clock samples of a thread that stands still are collapsed: they take the call trace of the
-- sample before.
use java_profiler.Base.{
  ℕ, ◌+◌, ◌^◌, ◌%◌, ◌<◌, Bool, true, false, ◌&&◌, not, ◌==◌, ==_refl, if◌then◌else◌, ◌≡◌, refl, sym,
  ap, ◌∙◌, arith, Bool-cases, inl, inr,
}
use java_profiler.ProfiledThread.{
  ProfiledThread, is_same_sample, lookup_wallclock_call_trace_id, note_cpu_sample,
  record_call_trace_id,
}

-- The thread after a look-up that found nothing.
abbrev pub moved_to : (pc recording_epoch : ℕ) → ProfiledThread → ProfiledThread
moved_to pc recording_epoch t = record t {
  wall_epoch = t.cpu_epoch;
  pc = pc;
  recording_epoch = recording_epoch;
}

lookup_hit :
    (pc e s : ℕ) (t : ProfiledThread)
    → is_same_sample pc e s t ≡ true
    → lookup_wallclock_call_trace_id pc e s t ≡ (t.call_trace_id, t)
unfolding lookup_wallclock_call_trace_id
lookup_hit pc e s t h = ap (λ b. if b then (t.call_trace_id, t) else (0, moved_to pc e t)) h

lookup_miss :
    (pc e s : ℕ) (t : ProfiledThread)
    → is_same_sample pc e s t ≡ false
    → lookup_wallclock_call_trace_id pc e s t ≡ (0, moved_to pc e t)
unfolding lookup_wallclock_call_trace_id
lookup_miss pc e s t h = ap (λ b. if b then (t.call_trace_id, t) else (0, moved_to pc e t)) h

all_true :
    {a b c d f : Bool}
    → a ≡ true
    → b ≡ true
    → c ≡ true
    → d ≡ true
    → f ≡ false
    → (a && b && c && d && not f) ≡ true
all_true a b c d f = rw (a, b, c, d, f) refl

first_false : {a : Bool} (b c d f : Bool) → a ≡ false → (a && b && c && d && f) ≡ false
first_false b c d f a = rw a refl

last_true : (a b c d f : Bool) → (a && b && c && d && not f) ≡ true → f ≡ false
last_true a b c d f h = ground arith

hit_has_trace :
    (pc e s : ℕ) (t : ProfiledThread)
    → is_same_sample pc e s t ≡ true
    → (t.call_trace_id == 0) ≡ false
unfolding is_same_sample
hit_has_trace pc e s t h =
    last_true (t.wall_epoch == t.cpu_epoch) (t.pc == pc) (t.span_id == s) (t.recording_epoch == e)
      (t.call_trace_id == 0) h

recorded_same :
    (pc e id : ℕ) (t : ProfiledThread)
    → (id == 0) ≡ false
    → is_same_sample pc e t.span_id (record_call_trace_id id (moved_to pc e t)) ≡ true
unfolding is_same_sample record_call_trace_id
recorded_same pc e id t h =
    all_true (==_refl t.cpu_epoch) (==_refl pc) (==_refl t.span_id) (==_refl e) h

recorded_id : (id : ℕ) (t : ProfiledThread) → (record_call_trace_id id t).call_trace_id ≡ id
unfolding record_call_trace_id
recorded_id id t = refl

epoch_apart : (n : ℕ) → n < 2 ^ 32 → (n == (n + 1) % 2 ^ 32) ≡ false
epoch_apart n h = ground arith

noted_other :
    (pc e s id epoch : ℕ) (t : ProfiledThread)
    → t.cpu_epoch < 2 ^ 32
    → is_same_sample pc e s (note_cpu_sample epoch (record_call_trace_id id (moved_to pc e t))).1
      ≡ false
unfolding is_same_sample note_cpu_sample record_call_trace_id
noted_other pc e s id epoch t h =
    first_false (pc == pc) (t.span_id == s) (epoch == e) (not (id == 0)) (epoch_apart t.cpu_epoch h)

-- For a thread without a call trace for the place and epoch of a wall-clock sample, so that the look-up
-- answers 0, and a trace other than 0 that is then recorded for it: the next look-up at the same
-- place and epoch, under the span that the thread has, answers that trace and changes nothing; but once
-- a CPU sample has been noted it answers 0. The CPU epoch is below 2^32.
pub lookup-record_call_trace_id :
    (pc e id epoch : ℕ) (t : ProfiledThread)
    → (id == 0) ≡ false
    → t.cpu_epoch < 2 ^ 32
    → (lookup_wallclock_call_trace_id pc e t.span_id t).0 ≡ 0
    → (lookup_wallclock_call_trace_id pc e t.span_id
          (record_call_trace_id id (lookup_wallclock_call_trace_id pc e t.span_id t).1)
        ≡ (id, record_call_trace_id id (lookup_wallclock_call_trace_id pc e t.span_id t).1))
      × ((lookup_wallclock_call_trace_id pc e t.span_id
            (note_cpu_sample epoch
              (record_call_trace_id id (lookup_wallclock_call_trace_id pc e t.span_id t).1)).1).0
          ≡ 0)
lookup-record_call_trace_id pc e id epoch t other low miss =
    elim (Bool-cases (is_same_sample pc e t.span_id t)) [
      | inl h ↦
          let none_there =
            sym (ap (λ (x : ℕ × ProfiledThread). x.0) (lookup_hit pc e t.span_id t h)) ∙ miss in
          absurd (ground (arith, none_there, hit_has_trace pc e t.span_id t h))
      | inr h ↦ rw (lookup_miss pc e t.span_id t h) (
        lookup_hit pc e t.span_id (record_call_trace_id id (moved_to pc e t))
              (recorded_same pc e id t other)
            ∙ ap (λ n. (n, record_call_trace_id id (moved_to pc e t)))
                (recorded_id id (moved_to pc e t)),
        ap (λ (x : ℕ × ProfiledThread). x.0)
            (lookup_miss pc e t.span_id _ (noted_other pc e t.span_id id epoch t low)),
      )
    ]
