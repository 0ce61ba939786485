-- ===== src/Profiler/Holding.antt =====
-- All locks of the samples are taken and given back.
use java_profiler.Base.{
  ℕ, zero, suc, ◌+◌, ◌≤◌, ◌<◌, update, update-here, update-there, some, ◌≡◌, ◌≢◌, refl, ap, ◌∙◌,
  arith,
}
use java_profiler.SpinLock.{try_lock, unlock}
use java_profiler.Profiler.{Error, concurrency_level, Profiler, Result}
use java_profiler.Profiler.Locks.{spin, lock_all, unlock_all, all_locked}
use native.Mathlib.Decide.{dec_lt}

-- The places from `a` up to `b` hold `v`.
abbrev pub Holds : (v a b : ℕ) → (ℕ → ℕ) → Type 0
Holds v a b locks = (j : ℕ) → a ≤ j → j < b → locks j ≡ v

abbrev pub IsFree : (ℕ → ℕ) → Type 0
IsFree locks = Holds 0 0 concurrency_level locks

pub unlock_held : {n : ℕ} → n ≡ 1 → unlock n ≡ 0
unfolding unlock
unlock_held h = rw h refl

pub spin_free : {n : ℕ} → n ≡ 0 → spin n ≡ some 1
unfolding spin try_lock
spin_free h = rw h refl

behind : {i j : ℕ} → i + 1 ≤ j → i ≢ j
behind ge same = absurd (omega (arith, same))

-- A place is written with `w`, and the rest of the range has it already.
written-Holds :
    (w i b : ℕ) (locks after : ℕ → ℕ)
    → Holds w (i + 1) b after
    → ((j : ℕ) → j < i + 1 → after j ≡ update locks i w j)
    → Holds w i b after × ((j : ℕ) → j < i → after j ≡ locks j)
written-Holds w i b locks after held same = (
  λ j ge lt. elim (dec_lt i j) [
    | yes above ↦ held j (omega (arith, above)) lt
    | no below ↦
        let here : i ≡ j = omega (arith, below) in
        same j (omega (arith, below)) ∙ rw (← here) (update-here locks i w)
  ],
  λ j lt.
      same j (omega (arith, lt)) ∙ update-there locks i w j (λ e. absurd (omega (arith, e, lt))),
)

shifted-Holds :
    {v i b : ℕ} (locks : ℕ → ℕ) (w : ℕ) → Holds v i b locks → Holds v (i + 1) b (update locks i w)
shifted-Holds {i = i} locks w h j ge lt =
    update-there locks i w j (behind ge) ∙ h j (omega (arith, ge)) lt

lock_all-Holds :
    (left i b : ℕ) (locks : ℕ → ℕ)
    → i + left ≡ b
    → Holds 0 i b locks
    → (locks' : ℕ → ℕ) × (lock_all left i locks ≡ some locks')
      × Holds 1 i b locks'
      × ((j : ℕ) → j < i → locks' j ≡ locks j)
unfolding lock_all
lock_all-Holds zero i b locks e h = (locks, refl, λ j ge lt. absurd (omega arith), λ j lt. refl)
lock_all-Holds (suc left) i b locks e h =
    let (locks', at, held, same) =
      lock_all-Holds left (i + 1) b (update locks i 1) (omega (arith, e))
        (shifted-Holds locks 1 h) in
    let (all, below) = written-Holds 1 i b locks locks' held same in
    (locks', rw (spin_free (h i (omega arith) (omega (arith, e)))) at, all, below)

unlock_all-Holds :
    (left i b : ℕ) (locks : ℕ → ℕ)
    → i + left ≡ b
    → Holds 1 i b locks
    → Holds 0 i b (unlock_all left i locks)
      × ((j : ℕ) → j < i → unlock_all left i locks j ≡ locks j)
unfolding unlock_all
unlock_all-Holds zero i b locks e h = (λ j ge lt. absurd (omega arith), λ j lt. refl)
unlock_all-Holds (suc left) i b locks e h =
    let w = unlock (locks i) in
    let freed : w ≡ 0 = unlock_held (h i (omega arith) (omega (arith, e))) in
    let (held, same) =
      unlock_all-Holds left (i + 1) b (update locks i w) (omega (arith, e))
        (shifted-Holds locks w h) in
    written-Holds 0 i b locks (unlock_all left (i + 1) (update locks i w)) held
      (λ j lt. same j lt ∙ ap (λ x. update locks i x j) freed)

-- A body that returns and leaves the locks alone returns also under all locks, if they are free, and
-- they are free afterwards.
pub all_locked-Gives :
    (body : Profiler → Result) (p after : Profiler) (error : Error)
    → IsFree p.locks
    → ((locks : ℕ → ℕ)
        → body (record p { locks = locks }) ≡ some (error, record after { locks = locks }))
    → (locks : ℕ → ℕ) × (all_locked body p ≡ some (error, record after { locks = locks }))
      × IsFree locks
unfolding all_locked
all_locked-Gives body p after error free run =
    let (locks, at, held, _) =
      lock_all-Holds concurrency_level 0 concurrency_level p.locks refl free in
    let (freed, _) = unlock_all-Holds concurrency_level 0 concurrency_level locks refl held in
    (unlock_all concurrency_level 0 locks, rw (at, run locks) refl, freed)
