-- ===== src/SpinLock/Invariant.antt =====
-- The value of the lock counts its holders, in every reachable state.
use java_profiler.Base.{
  ℕ, ◌+◌, ◌-◌, ◌%◌, ◌^◌, ◌≤◌, ◌<◌, ◌≡◌, refl, ◌⊎◌, inl, inr, update, arith, Bool-cases, ◌==◌,
}
use java_profiler.Base.Sums.{sum_below, sum_below-update, sum_below-le, sum_below_zero}
use java_profiler.SpinLock.{try_lock, unlock, admits_shared, swap_shared, unlock_shared}
use java_profiler.SpinLock.Threads.{
  Pc, loaded, exclusive, shared, Move, acquire, busy, load, refused, swap, lost, release,
  release_shared, System, Step, pick, init, Reach, start, later,
}

abbrev pub holds_exclusive : Pc → ℕ
holds_exclusive exclusive = 1
holds_exclusive _ = 0

abbrev pub holds_shared : Pc → ℕ
holds_shared shared = 1
holds_shared _ = 0

-- A value that was loaded passed the test, so it is no exclusive lock.
abbrev pub IsLoaded : Pc → Type 0
IsLoaded (loaded value) = (value ≡ 0) ⊎ ((2 ^ 31 ≤ value) × (value < 2 ^ 32))
IsLoaded _ = Unit

-- The value of the lock for a count of exclusive and of shared holders.
abbrev pub Encodes : ℕ → ℕ → ℕ → Type 0
Encodes lock x s = ((x ≡ 0) × (lock ≡ (2 ^ 32 - s) % 2 ^ 32)) ⊎ ((x ≡ 1) × (s ≡ 0) × (lock ≡ 1))

pub record Inv (n : ℕ) (lock : ℕ) (pc : ℕ → Pc) : Type 0 where
  pub few : n ≤ 2 ^ 31
  pub counted : Encodes lock (sum_below holds_exclusive n pc) (sum_below holds_shared n pc)
  pub checked : (i : ℕ) → IsLoaded (pc i)

exclusive-le : (n : ℕ) (pc : ℕ → Pc) → sum_below holds_exclusive n pc ≤ n
exclusive-le = sum_below-le holds_exclusive (λ p. ground arith)

shared-le : (n : ℕ) (pc : ℕ → Pc) → sum_below holds_shared n pc ≤ n
shared-le = sum_below-le holds_shared (λ p. ground arith)

-- What one access does to the counts of holders, when the thread stood at `p`.
Move-Encodes :
    {lock lock' : ℕ} {p p' : Pc} (x s x' s' : ℕ)
    → Move lock p lock' p'
    → IsLoaded p
    → Encodes lock x s
    → x' + holds_exclusive p ≡ x + holds_exclusive p'
    → s' + holds_shared p ≡ s + holds_shared p'
    → s' ≤ 2 ^ 31
    → s ≤ 2 ^ 31
    → Encodes lock' x' s'
unfolding try_lock unlock admits_shared swap_shared unlock_shared
Move-Encodes x s x' s' (acquire g) l e hx hs b c = ground arith
Move-Encodes x s x' s' (busy g) l e hx hs b c = ground arith
Move-Encodes x s x' s' (load g) l e hx hs b c = ground arith
Move-Encodes x s x' s' (refused g) l e hx hs b c = ground arith
Move-Encodes x s x' s' (swap g) l e hx hs b c = ground arith
Move-Encodes x s x' s' (lost g) l e hx hs b c = ground arith
Move-Encodes x s x' s' release l e hx hs b c = ground arith
Move-Encodes x s x' s' release_shared l e hx hs b c = ground arith

Move-IsLoaded : {lock lock' : ℕ} {p p' : Pc} → Move lock p lock' p' → lock < 2 ^ 32 → IsLoaded p'
unfolding admits_shared
Move-IsLoaded (acquire g) h = tt
Move-IsLoaded (busy g) h = tt
Move-IsLoaded (load g) h = ground arith
Move-IsLoaded (refused g) h = tt
Move-IsLoaded (swap g) h = tt
Move-IsLoaded (lost g) h = tt
Move-IsLoaded release h = tt
Move-IsLoaded release_shared h = tt

IsLoaded-update :
    (pc : ℕ → Pc) (i : ℕ) (p : Pc) (j : ℕ)
    → IsLoaded (pc j)
    → IsLoaded p
    → IsLoaded (update pc i p j)
IsLoaded-update pc i p j old new = elim (Bool-cases (i == j)) [
  | inl e ↦ rw e new
  | inr e ↦ rw e old
]

module _ {n : ℕ} {lock : ℕ} {pc : ℕ → Pc} (inv : Inv n lock pc) (i : ℕ) (lt : i < n) where
  update-Encodes :
      {lock' : ℕ} (p p' : Pc)
      → pc i ≡ p
      → Move lock p lock' p'
      → Encodes lock'
          (sum_below holds_exclusive n (update pc i p'))
          (sum_below holds_shared n (update pc i p'))
  update-Encodes p p' e mv =
      Move-Encodes (sum_below holds_exclusive n pc) (sum_below holds_shared n pc) _ _ mv
        (rw (← e) (inv.checked i)) inv.counted
        (rw (← e) (sum_below-update holds_exclusive n pc i p' lt))
        (rw (← e) (sum_below-update holds_shared n pc i p' lt))
        (omega (arith, shared-le n (update pc i p'), inv.few))
        (omega (arith, shared-le n pc, inv.few))

  pub Move-Inv : {lock' : ℕ} {p' : Pc} → Move lock (pc i) lock' p' → Inv n lock' (update pc i p')
  Move-Inv {p'} mv = record {
    few = inv.few;
    counted = update-Encodes (pc i) p' refl mv;
    checked = λ j.
        IsLoaded-update pc i p' j (inv.checked j) (Move-IsLoaded mv (ground (arith, inv.counted)));
  }

Inv-init : (n : ℕ) → n ≤ 2 ^ 31 → Inv n init.lock init.pc
Inv-init n h = record {
  few = h;
  counted = inl (
    sum_below_zero holds_exclusive n _ (λ i. refl),
    rw (sum_below_zero holds_shared n _ (λ i. refl)),
  );
  checked = λ i. tt;
}

-- Every step keeps the invariant.
pub Step-Inv : {n : ℕ} {s t : System} → Step n s t → Inv n s.lock s.pc → Inv n t.lock t.pc
Step-Inv (pick i lt mv) inv = Move-Inv inv i lt mv

pub Reach-Inv : {n : ℕ} {s : System} → n ≤ 2 ^ 31 → Reach n s → Inv n s.lock s.pc
Reach-Inv {n} few start = Inv-init n few
Reach-Inv few (later r st) = Step-Inv st (Reach-Inv few r)
