-- ===== src/Profiler/Sampling.antt =====
-- A sample takes one of three locks, or is skipped, and gives back what it took.
use java_profiler.Base.{
  ℕ, ◌+◌, ◌%◌, ◌^◌, ◌<◌, Bool, true, false, not, ◌&&◌, ◌==◌, if◌then◌else◌, update-here,
  update-there, List, Option, none, some, ◌≡◌, ◌≢◌, ◌⊎◌, refl, sym, ap, ◌∙◌, arith, Bool-cases, inl,
  inr,
}
use java_profiler.CallTraceStorage.{CallFrame, put}
use java_profiler.SpinLock.{try_lock, unlock, compare_and_swap}
use java_profiler.Profiler.{Profiler, concurrency_level}
use java_profiler.Profiler.Locks.{get_lock_index, try_at, acquire, release_lock}
use java_profiler.Profiler.Holding.{unlock_held}
use java_profiler.Profiler.Samples.{
  Recorded, count_sample, count_skipped, locked_by, under_lock, skip_counted, put_trace, or_error,
  sample_body, record_sample,
}

-- What the three tries give: a lock that was free and is held now, or none, where each was held.
abbrev Taken : (tried : ℕ → Type 0) (locks : ℕ → ℕ) → Option ℕ × (ℕ → ℕ) → Type 0
Taken tried locks (some i, after) =
    (i < concurrency_level) × (locks i ≡ 0) × (after i ≡ 1) × ((j : ℕ) → i ≢ j → after j ≡ locks j)
Taken tried locks (none, after) = (after ≡ locks) × ((j : ℕ) → tried j → (locks j == 0) ≡ false)

try_lock-cases :
    (n : ℕ)
    → ((n ≡ 0) × (try_lock n ≡ (true, 1))) ⊎ (((n == 0) ≡ false) × (try_lock n ≡ (false, n)))
unfolding try_lock compare_and_swap
try_lock-cases n = elim (Bool-cases (n == 0)) [
  | inl h ↦ inl (ground (arith, h), rw h refl)
  | inr h ↦ inr (h, rw h refl)
]

-- The failed try at `i` comes before the others.
also_tried :
    (i : ℕ) (tried : ℕ → Type 0) (locks : ℕ → ℕ) (r : Option ℕ × (ℕ → ℕ))
    → (locks i == 0) ≡ false
    → Taken tried locks r
    → Taken (λ j. (j ≡ i) ⊎ tried j) locks r
also_tried i tried locks (some j, after) h t = t
also_tried i tried locks (none, after) h (same, all) =
    (same, λ j c. elim c [ inl at ↦ rw at h | inr before ↦ all j before ])

try_at-Taken :
    (i : ℕ) (tried : ℕ → Type 0) (otherwise : (ℕ → ℕ) → Option ℕ × (ℕ → ℕ)) (locks : ℕ → ℕ)
    → i < concurrency_level
    → Taken tried locks (otherwise locks)
    → Taken (λ j. (j ≡ i) ⊎ tried j) locks (try_at i otherwise locks)
unfolding try_at
try_at-Taken i tried otherwise locks lt rest = elim (try_lock-cases (locks i)) [
  | inl (zero_, e) ↦ rw e (lt, zero_, update-here locks i 1, λ j. update-there locks i 1 j)
  | inr (held, e) ↦ rw e (also_tried i tried locks (otherwise locks) held rest)
]

-- The locks that a sample of the thread tries.
abbrev pub IsTried : (tid j : ℕ) → Type 0
IsTried tid j =
    (j ≡ get_lock_index tid)
    ⊎ ((j ≡ (get_lock_index tid + 1) % concurrency_level)
        ⊎ ((j ≡ ((get_lock_index tid + 1) % concurrency_level + 2) % concurrency_level) ⊎ ⊥))

index_below : (tid : ℕ) → get_lock_index tid < concurrency_level
unfolding get_lock_index
index_below tid = omega arith

acquire-Taken : (tid : ℕ) (locks : ℕ → ℕ) → Taken (IsTried tid) locks (acquire tid locks)
unfolding acquire
acquire-Taken tid locks =
    let first = get_lock_index tid in
    let second = (first + 1) % concurrency_level in
    let third = (second + 2) % concurrency_level in
    let none_left : (ℕ → ℕ) → Option ℕ × (ℕ → ℕ) = λ locks. (none, locks) in
    try_at-Taken first (λ j. (j ≡ second) ⊎ ((j ≡ third) ⊎ ⊥))
      (try_at second (try_at third none_left)) locks (index_below tid)
      (try_at-Taken second (λ j. (j ≡ third) ⊎ ⊥) (try_at third none_left) locks (omega arith)
        (try_at-Taken third (λ j. ⊥) none_left locks (omega arith) (refl, λ j never. absurd never)))

-- What a sample gives: the locks are as before and it is counted. Either all three locks were held, and
-- it is skipped without a trace; or one of the sixteen was free, and the recording gets its index with
-- the trace that was given, or with the one that the storage gives to the frames.
pub record Sampled (error_frame : CallFrame) (frames : List CallFrame) (truncated : Bool)
    (counter tid call_trace_id : ℕ) (p : Profiler) (r : Recorded) (p' : Profiler) : Type 0 where
  pub released : (j : ℕ) → p'.locks j ≡ p.locks j
  pub counted : p'.total_samples ≡ (p.total_samples + 1) % 2 ^ 64
  pub outcome :
      ((r ≡ none)
        × (p'.skipped ≡ (p.skipped + 1) % 2 ^ 64)
        × (p'.call_trace_storage ≡ p.call_trace_storage)
        × ((j : ℕ) → IsTried tid j → (p.locks j == 0) ≡ false))
      ⊎ ((i : ℕ) × (i < concurrency_level)
          × (p.locks i ≡ 0)
          × (p'.skipped ≡ p.skipped)
          × (if not p.omit_stacktraces && call_trace_id == 0
              then (r
                  ≡ some (
                    i,
                    (put p.call_trace_storage (or_error error_frame frames) truncated counter).0,
                  ))
                × (p'.call_trace_storage
                    ≡ (put p.call_trace_storage (or_error error_frame frames) truncated counter).1)
              else (r ≡ some (i, call_trace_id)) × (p'.call_trace_storage ≡ p.call_trace_storage)))

module _ (error_frame : CallFrame) (frames : List CallFrame) (truncated : Bool)
    (counter tid call_trace_id : ℕ) (p : Profiler) where
  abbrev body : ℕ → Profiler → Recorded × Profiler
  body = sample_body error_frame frames truncated counter call_trace_id

  restored :
      (i : ℕ) (after : ℕ → ℕ)
      → p.locks i ≡ 0
      → after i ≡ 1
      → ((j : ℕ) → i ≢ j → after j ≡ p.locks j)
      → (j : ℕ) → release_lock i after j ≡ p.locks j
  unfolding release_lock
  restored i after was now others j = elim (Bool-cases (i == j)) [
    | inl h ↦
        let at : i ≡ j = ground (arith, h) in
        rw (← at) (update-here after i (unlock (after i)) ∙ unlock_held now ∙ sym was)
    | inr h ↦
        let off : i ≢ j = λ e. ground (arith, h, e) in
        update-there after i (unlock (after i)) j off ∙ others j off
  ]

  abbrev fresh : ℕ → Profiler → Recorded × Profiler
  fresh i q = (
    some (i, (put q.call_trace_storage (or_error error_frame frames) truncated counter).0),
    record q {
      call_trace_storage =
          (put q.call_trace_storage (or_error error_frame frames) truncated counter).1;
    },
  )

  choose :
      {b v : Bool} (x y : Recorded × Profiler) → b ≡ v → (if b then x else y) ≡ (if v then x else y)
  choose x y h = rw h refl

  body-fresh :
      (i : ℕ) (q : Profiler)
      → (not q.omit_stacktraces && call_trace_id == 0) ≡ true
      → body i q ≡ fresh i q
  unfolding sample_body put_trace
  body-fresh i q h = choose (fresh i q) (some (i, call_trace_id), q) h

  body-given :
      (i : ℕ) (q : Profiler)
      → (not q.omit_stacktraces && call_trace_id == 0) ≡ false
      → body i q ≡ (some (i, call_trace_id), q)
  unfolding sample_body put_trace
  body-given i q h = choose (fresh i q) (some (i, call_trace_id), q) h

  locked_by-run :
      (i : ℕ) (q : Profiler) {r : Recorded} {q' : Profiler}
      → body i q ≡ (r, q')
      → locked_by (some i) skip_counted body q ≡ (r, record q' { locks = release_lock i q'.locks })
  unfolding locked_by
  locked_by-run i q e =
      ap (λ (x : Recorded × Profiler). (x.0, record x.1 { locks = release_lock i x.1.locks })) e

  abbrev IsSampled : Recorded × Profiler → Type 0
  IsSampled r = Sampled error_frame frames truncated counter tid call_trace_id p r.0 r.1

  locked-Sampled :
      (x : Option ℕ × (ℕ → ℕ))
      → Taken (IsTried tid) p.locks x
      → IsSampled (locked_by x.0 skip_counted body (record (count_sample p) { locks = x.1 }))
  unfolding count_sample
  locked-Sampled (none, after) (same, all) =
      unfold locked_by in
      unfold count_skipped in
      record {
        released = λ j. ap (λ (f : ℕ → ℕ). f j) same;
        counted = refl;
        outcome = inl (refl, refl, refl, all);
      }
  locked-Sampled (some i, after) (lt, was, now, others) =
      let q = record (count_sample p) { locks = after } in
      elim (Bool-cases (not p.omit_stacktraces && call_trace_id == 0)) [
        | inl h ↦ rw (locked_by-run i q (body-fresh i q h)) record {
          released = restored i after was now others;
          counted = refl;
          outcome = inr (i, lt, was, refl, rw h (refl, refl));
        }
        | inr h ↦ rw (locked_by-run i q (body-given i q h)) record {
          released = restored i after was now others;
          counted = refl;
          outcome = inr (i, lt, was, refl, rw h (refl, refl));
        }
      ]

  -- A sample leaves every lock as it was and is counted. Either the three locks that it tries were all held,
  -- it is counted as skipped and stores no trace; or it is recorded under one of the sixteen locks,
  -- which was free, with the trace that the storage gives to its frames if none was given and stack
  -- traces are wanted, and otherwise with the trace that was given.
  pub record_sample-Sampled :
      IsSampled (record_sample error_frame frames truncated counter tid call_trace_id p)
  record_sample-Sampled =
      unfold record_sample in
      unfold under_lock in locked-Sampled (acquire tid p.locks) (acquire-Taken tid p.locks)
