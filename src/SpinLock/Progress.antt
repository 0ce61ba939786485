-- ===== src/SpinLock/Progress.antt =====
-- No interleaving ends in a deadlock: the holders can give the lock back, and any thread can take it.
use java_profiler.Base.{
  ℕ, zero, suc, ◌^◌, ◌≤◌, ◌<◌, Bool, true, false, ◌≡◌, ◌≢◌, refl, sym, ◌∙◌, update, update-here,
  update-there, arith,
}
use java_profiler.SpinLock.{unlocked, try_lock, unlock, swap_shared, unlock_shared}
use java_profiler.SpinLock.Threads.{
  Pc, idle, loaded, exclusive, shared, Move, acquire, swap, lost, release, release_shared, System,
  Step, pick, Reach, start, later,
}
use java_profiler.SpinLock.Safety.{free_when_unheld}
use mathlib.Core.Path.{subst}
use native.Mathlib.Decide.{dec_lt}

-- What may follow a state.
pub data Steps (n : ℕ) : System → System → Type 0 where
  stay : {s : System} → Steps n s s
  go : {s t u : System} → Step n s t → Steps n t u → Steps n s u

append : {n : ℕ} {s t u : System} → Steps n s t → Steps n t u → Steps n s u
append stay next = next
append (go st rest) next = go st (append rest next)

Steps-Reach : {n : ℕ} {s t : System} → Reach n s → Steps n s t → Reach n t
Steps-Reach r stay = r
Steps-Reach r (go st rest) = Steps-Reach (later r st) rest

-- Threads from `n` on never start.
outside-idle : {n : ℕ} {s : System} → Reach n s → (j : ℕ) → n ≤ j → s.pc j ≡ idle
outside-idle start j ge = refl
outside-idle (later {s = s} r (pick i {p = p} lt mv)) j ge =
    update-there s.pc i p j (λ e. absurd (omega (arith, e))) ∙ outside-idle r j ge

abbrev moved : System → (i lock : ℕ) → Pc → System
moved s i lock p = record { lock = lock; pc = update s.pc i p }

step_from :
    {n : ℕ} (s : System) (i : ℕ) {lock : ℕ} {p q : Pc}
    → i < n
    → s.pc i ≡ p
    → Move s.lock p lock q
    → Step n s (moved s i lock q)
step_from s i {lock} {p} {q} lt e mv = pick i lt (subst (λ x. Move s.lock x lock q) (sym e) mv)

-- The thread `i` alone moves, until it is idle.
record Drains (n : ℕ) (s : System) (i : ℕ) (t : System) : Type 0 where
  path : Steps n s t
  here : t.pc i ≡ idle
  there : (j : ℕ) → i ≢ j → t.pc j ≡ s.pc j

moved-Drains :
    {n : ℕ} (s : System) (i : ℕ) {lock : ℕ}
    → Step n s (moved s i lock idle)
    → Drains n s i (moved s i lock idle)
moved-Drains s i st = record {
  path = go st stay;
  here = update-here s.pc i idle;
  there = λ j ne. update-there s.pc i idle j ne;
}

via-Drains :
    {n : ℕ} (s : System) (i lock : ℕ) (p : Pc) (t : System)
    → Step n s (moved s i lock p)
    → Drains n (moved s i lock p) i t
    → Drains n s i t
via-Drains s i lock p t st d = record {
  path = go st d.path;
  here = d.here;
  there = λ j ne. d.there j ne ∙ update-there s.pc i p j ne;
}

shared-Drains :
    {n : ℕ} (s : System) (i : ℕ)
    → i < n
    → s.pc i ≡ shared
    → Drains n s i (moved s i (unlock_shared s.lock) idle)
shared-Drains s i lt e = moved-Drains s i (step_from s i lt e release_shared)

-- A thread that has loaded a value tries its swap.
loaded-Drains :
    {n : ℕ} (s : System) (i value : ℕ)
    → i < n
    → s.pc i ≡ loaded value
    → (swapped : Bool) (lock : ℕ) → swap_shared s.lock value ≡ (swapped, lock)
    → (t : System) × Drains n s i t
loaded-Drains s i value lt e true lock h =
    let held = moved s i lock shared in
    let t = moved held i (unlock_shared lock) idle in
    (
      t,
      via-Drains s i lock shared t (step_from s i lt e (swap h))
          (shared-Drains held i lt (update-here s.pc i shared)),
    )
loaded-Drains s i value lt e false lock h =
    (moved s i lock idle, moved-Drains s i (step_from s i lt e (lost h)))

drain_at :
    {n : ℕ} (s : System) (i : ℕ) → i < n → (p : Pc) → s.pc i ≡ p → (t : System) × Drains n s i t
drain_at s i lt idle e = (s, record { path = stay; here = e; there = λ j ne. refl })
drain_at s i lt (loaded value) e = loaded-Drains s i value lt e _ _ refl
drain_at s i lt exclusive e =
    (moved s i (unlock s.lock) idle, moved-Drains s i (step_from s i lt e release))
drain_at s i lt shared e = (moved s i (unlock_shared s.lock) idle, shared-Drains s i lt e)

-- All threads below `k` become idle.
drain :
    {n : ℕ} (s : System) (k : ℕ)
    → k ≤ n
    → (t : System) × Steps n s t × ((j : ℕ) → j < k → t.pc j ≡ idle)
drain s zero le = (s, stay, λ j lt. absurd (omega arith))
drain {n = n} s (suc k) le =
    let (t, path, still) = drain {n = n} s k (omega arith) in
    let (u, d) = drain_at {n = n} t k (omega arith) (t.pc k) refl in
    (
      u,
      append path d.path,
      λ j lt. elim (dec_lt j k) [
        | yes below ↦ d.there j (λ e. absurd (omega (arith, e, below))) ∙ still j below
        | no last ↦ let e : k ≡ j = omega (arith, last) in rw (← e) d.here
      ],
    )

unheld : {p : Pc} → p ≡ idle → (p ≢ exclusive) × (p ≢ shared)
unheld e = (λ h. ground (arith, e, h), λ h. ground (arith, e, h))

taken : (lock : ℕ) → lock ≡ unlocked → try_lock lock ≡ (true, 1)
unfolding unlocked try_lock
taken lock e = rw e refl

-- With at most 2 ^ 31 threads, every reachable state can be continued so that a thread of choice holds the
-- lock exclusively and all the others are idle: no thread is locked out for good, whoever holds the lock
-- and whatever the others have loaded.
pub can_acquire :
    {n : ℕ} {s : System}
    → n ≤ 2 ^ 31
    → Reach n s
    → (i : ℕ) → i < n
    → (t : System) × Steps n s t × (t.pc i ≡ exclusive) × ((j : ℕ) → i ≢ j → t.pc j ≡ idle)
can_acquire {n} {s} few r i lt =
    let (t, path, still) = drain {n = n} s n (omega arith) in
    let reached = Steps-Reach r path in
    let all : (j : ℕ) → t.pc j ≡ idle = λ j. elim (dec_lt j n) [
      | yes below ↦ still j below
      | no above ↦ outside-idle reached j (omega (arith, above))
    ] in
    let (free, _, _) = free_when_unheld few reached (λ j. unheld (all j)) in
    (
      moved t i 1 exclusive,
      append path (go (step_from t i lt (all i) (acquire (taken t.lock free))) stay),
      update-here t.pc i exclusive,
      λ j ne. update-there t.pc i exclusive j ne ∙ all j,
    )
