-- ===== src/ProfiledThread/Nesting.antt =====
-- Signal handlers that use the guard nest on one thread: a handler is interrupted between any two of its
-- accesses, and the handler on top runs to its end before the one below goes on.
use java_profiler.Base.{
  ℕ, ◌+◌, ◌≤◌, Bool, true, false, if◌then◌else◌, List, [], ◌∷◌, ◌≡◌, refl, sym, ap, ◌∙◌, ◌⊎◌, arith,
  Bool-cases, inl, inr,
}
use java_profiler.ProfiledThread.{ProfiledThread, set_unwinding_java}
use java_profiler.ProfiledThread.Mutex.{AsyncSampleMutex, may_acquire, destroy}

-- A guard in its constructor, behind a test that passed, and a guard that is constructed.
pub data Frame : Type 0 where
  passed : Frame
  made : AsyncSampleMutex → Frame

pub record Handlers : Type 0 where
  pub thread : ProfiledThread
  pub stack : List Frame

-- The test of the flag and its setting are accesses of their own. `step_local` is a write of the other
-- data of the thread.
pub data Step (s : Handlers) : Handlers → Type 0 where
  refuse :
      {d : Bool}
      → may_acquire d s.thread ≡ false
      → Step s
          (record s { stack = made (record { thread_local_data = d; acquired = false }) ∷ s.stack })
  test : may_acquire true s.thread ≡ true → Step s (record s { stack = passed ∷ s.stack })
  set :
      {rest : List Frame}
      → s.stack ≡ passed ∷ rest
      → Step s (record {
        thread = set_unwinding_java true s.thread;
        stack = made (record { thread_local_data = true; acquired = true }) ∷ rest;
      })
  leave :
      {m : AsyncSampleMutex} {rest : List Frame}
      → s.stack ≡ made m ∷ rest
      → Step s (record { thread = destroy m s.thread; stack = rest })

pub data Reach : Handlers → Type 0 where
  begin :
      {t : ProfiledThread} → t.unwinding_java ≡ false → Reach (record { thread = t; stack = [] })
  later : {s t : Handlers} → Reach s → Step s t → Reach t

-- The guards that are acquired.
abbrev pub held : Frame → ℕ
held passed = 0
held (made m) = if m.acquired then 1 else 0

abbrev pub holders : List Frame → ℕ
holders [] = 0
holders (f ∷ fs) = held f + holders fs

abbrev pub IsStack : List Frame → Type 0
IsStack [] = Unit {0}
IsStack (passed ∷ fs) = (holders fs ≡ 0) × IsStack fs
IsStack (made m ∷ fs) = ((m.acquired ≡ false) ⊎ (holders fs ≡ 0)) × IsStack fs

pub record Inv (unwinding : Bool) (stack : List Frame) : Type 0 where
  pub nested : IsStack stack
  pub counted : holders stack ≡ (if unwinding then 1 else 0)

may_acquire-free :
    (d : Bool) (t : ProfiledThread) → may_acquire d t ≡ true → t.unwinding_java ≡ false
unfolding may_acquire
may_acquire-free d t h = ground arith

abbrev pub flag : Bool → ℕ
flag b = if b then 1 else 0

passed-Inv : {b : Bool} {stack : List Frame} → Inv b stack → b ≡ false → Inv b (passed ∷ stack)
passed-Inv {b} inv h =
    let none_held = inv.counted in
    record { nested = (rw h at none_held, inv.nested); counted = omega (arith, inv.counted) }

set-Inv :
    {b : Bool} {rest : List Frame}
    → Inv b (passed ∷ rest)
    → Inv true (made (record { thread_local_data = true; acquired = true }) ∷ rest)
set-Inv inv =
    let (free, below) = inv.nested in
    record { nested = (inr free, below); counted = omega (arith, free) }

leave-Inv :
    (m : AsyncSampleMutex) (t : ProfiledThread) {rest : List Frame}
    → Inv t.unwinding_java (made m ∷ rest)
    → Inv (destroy m t).unwinding_java rest
unfolding destroy
leave-Inv m t inv =
    let (alone, below) = inv.nested in
    elim (Bool-cases m.acquired) [
      | inl e ↦ rw e record { nested = below; counted = ground (arith, e) }
      | inr e ↦ rw e record { nested = below; counted = ground (arith, e, inv.counted) }
    ]

Step-Inv :
    {s t : Handlers}
    → Step s t
    → Inv s.thread.unwinding_java s.stack
    → Inv t.thread.unwinding_java t.stack
unfolding set_unwinding_java
Step-Inv (refuse h) inv = record {
  nested = (inl refl, inv.nested);
  counted = omega (arith, inv.counted);
}
Step-Inv {s} (test h) inv = passed-Inv inv (may_acquire-free true s.thread h)
Step-Inv {s} (set e) inv = set-Inv (rw e at inv)
Step-Inv {s} (leave {m} e) inv = leave-Inv m s.thread (rw e at inv)

pub Reach-Inv : {s : Handlers} → Reach s → Inv s.thread.unwinding_java s.stack
Reach-Inv (begin h) = record { nested = tt; counted = rw h refl }
Reach-Inv (later r st) = Step-Inv st (Reach-Inv r)

may_acquire_set :
    (d : Bool) (t : ProfiledThread) → t.unwinding_java ≡ true → may_acquire d t ≡ false
unfolding may_acquire
may_acquire_set true t h = rw h refl
may_acquire_set false t h = refl

flag_one : {b : Bool} → flag b ≡ 1 → b ≡ true
flag_one h = ground arith

flag_zero : {b : Bool} → flag b ≡ 0 → b ≡ false
flag_zero h = ground arith

-- However handlers that take the guard nest on one thread, with interrupts between the test of the flag
-- and its setting, at most one guard is acquired at a time; while one is, the flag is set, so that no
-- handler on top acquires; and once no guard is left the flag is clear.
pub acquired_once :
    {s : Handlers}
    → Reach s
    → (holders s.stack ≤ 1)
      × (holders s.stack ≡ 1 → (d : Bool) → may_acquire d s.thread ≡ false)
      × (s.stack ≡ [] → s.thread.unwinding_java ≡ false)
acquired_once {s} r =
    let inv = Reach-Inv r in
    (
      ground (arith, inv.counted),
      λ h d. may_acquire_set d s.thread (flag_one (sym inv.counted ∙ h)),
      λ h. flag_zero (sym inv.counted ∙ ap holders h),
    )
