-- ===== src/CallTraceStorage/Put.antt =====
-- Storing a stack trace: what `put` counts and where it is found again.
use java_profiler.Base.{
  ℕ, ◌+◌, ◌-◌, ◌%◌, ◌^◌, ◌<◌, ◌≡◌, refl, ◌∙◌, Bool, true, false, ◌==◌, arith, ==_refl, List,
}
use java_profiler.Base.Bits.{bit_and-le}
use java_profiler.SpinLock.{
  admits_shared, swap_shared, try_lock_shared, compare_and_swap, unlock_shared,
}
use java_profiler.CallTraceStorage.Claim.{IsValid, capacity_pos, settled, settle-own}
use java_profiler.CallTraceStorage.Probing.{Ends, probe-Ends, probe-claimed}
use java_profiler.CallTraceStorage.{
  CallFrame, CallTrace, LongHashTable, CallTraceStorage, Probe, hit, vacant, exhausted,
  search_table, claim_slot, set_trace, settle, count_sample, trace_id, counted_at, put_at,
  put_locked, put_with, put, calc_hash, overflow_trace_id,
}

-- A table in which the row `slot` of a hash counts one sample and its weight more.
pub record Counts (t t' : LongHashTable) (hash weight slot : ℕ) : Type 0 where
  pub inside : slot < t.capacity
  pub same_capacity : t'.capacity ≡ t.capacity
  pub found : search_table t' hash ≡ hit slot
  pub samples : (t'.values slot).samples ≡ ((t.values slot).samples + 1) % 2 ^ 64
  pub counter : (t'.values slot).counter ≡ ((t.values slot).counter + weight) % 2 ^ 64
  pub others : (k : ℕ) → (slot == k) ≡ false → t'.values k ≡ t.values k

search_table-Ends :
    (t : LongHashTable) (hash : ℕ)
    → 0 < t.capacity
    → Ends t.keys t.capacity hash (search_table t hash)
unfolding search_table
search_table-Ends t hash positive =
    probe-Ends t.keys t.capacity hash positive t.capacity _ 0
      (omega (arith, bit_and-le hash (t.capacity - 1)))

search_table-counted :
    (t : LongHashTable) (hash slot weight : ℕ)
    → search_table (count_sample t slot weight) hash ≡ search_table t hash
unfolding search_table count_sample
search_table-counted t hash slot weight = refl

search_table-settled :
    (t : LongHashTable) (hash slot : ℕ) (trace : CallTrace)
    → t.keys slot ≡ 0
    → search_table t hash ≡ vacant slot
    → search_table (settled t slot hash trace) hash ≡ hit slot
unfolding search_table set_trace claim_slot
search_table-settled t hash slot trace z e =
    probe-claimed t.keys t.capacity hash t.capacity _ 0 slot z e

count_sample-Counts :
    (t t0 : LongHashTable) (hash weight slot : ℕ)
    → slot < t0.capacity
    → t.capacity ≡ t0.capacity
    → search_table t hash ≡ hit slot
    → (t.values slot).samples ≡ (t0.values slot).samples
    → (t.values slot).counter ≡ (t0.values slot).counter
    → ((k : ℕ) → (slot == k) ≡ false → t.values k ≡ t0.values k)
    → Counts t0 (count_sample t slot weight) hash weight slot
count_sample-Counts t t0 hash weight slot lt cap run samples counter others = record {
  inside = lt;
  same_capacity = unfold count_sample in cap;
  found = search_table-counted t hash slot weight ∙ run;
  samples = unfold count_sample in rw (==_refl slot, samples);
  counter = unfold count_sample in rw (==_refl slot, counter);
  others = λ k far. unfold count_sample in rw far (others k far);
}

hit-Counts :
    (t : LongHashTable) (hash weight slot : ℕ)
    → slot < t.capacity
    → search_table t hash ≡ hit slot
    → Counts t (count_sample t slot weight) hash weight slot
hit-Counts t hash weight slot lt run =
    count_sample-Counts t t hash weight slot lt refl run refl refl (λ k far. refl)

settled-Counts :
    (t : LongHashTable) (hash weight slot : ℕ) (trace : CallTrace)
    → slot < t.capacity
    → t.keys slot ≡ 0
    → search_table t hash ≡ vacant slot
    → Counts t (count_sample (settled t slot hash trace) slot weight) hash weight slot
settled-Counts t hash weight slot trace lt z run =
    count_sample-Counts (settled t slot hash trace) t hash weight slot lt
      (unfold set_trace claim_slot in refl) (search_table-settled t hash slot trace z run)
      (unfold set_trace claim_slot in rw (==_refl slot))
      (unfold set_trace claim_slot in rw (==_refl slot))
      (λ k far. unfold set_trace claim_slot in rw far)

-- What `put` returns: the overflow id, with only the overflow counted, or the id of the row that counts.
pub data Outcome (s : CallTraceStorage) (hash weight id : ℕ) (s' : CallTraceStorage) : Type 0 where
  overflowed :
      id ≡ overflow_trace_id
      → search_table (s.tables s.current_table) hash ≡ exhausted
      → s'.tables ≡ s.tables
      → s'.overflow ≡ (s.overflow + 1) % 2 ^ 64
      → Outcome s hash weight id s'
  counted :
      (slot : ℕ)
      → id ≡ trace_id (s.tables s.current_table).capacity slot
      → Counts (s.tables s.current_table) (s'.tables s.current_table) hash weight slot
      → Outcome s hash weight id s'

module _ (s : CallTraceStorage) (v : IsValid s) (frames : List CallFrame) (truncated : Bool)
    (weight : ℕ) where
  abbrev i : ℕ
  i = s.current_table

  abbrev t : LongHashTable
  t = s.tables s.current_table

  abbrev hash : ℕ
  hash = calc_hash frames truncated

  counted_at-Outcome :
      (s' : CallTraceStorage) (t' : LongHashTable) (slot : ℕ)
      → s'.tables i ≡ t'
      → t'.capacity ≡ t.capacity
      → Counts t (count_sample t' slot weight) hash weight slot
      → Outcome s hash weight (counted_at s' i slot weight).0 (counted_at s' i slot weight).1
  unfolding counted_at
  counted_at-Outcome s' t' slot own cap c = counted slot (rw (own, cap)) (rw (==_refl i, own) c)

  outcome :
      (p : Probe)
      → search_table t hash ≡ p
      → Ends t.keys t.capacity hash p
      → Outcome s hash weight
          (put_at s i hash frames truncated weight p).0
          (put_at s i hash frames truncated weight p).1
  unfolding put_at
  outcome (hit slot) run (lt, e) =
      counted_at-Outcome s t slot refl refl (hit-Counts t hash weight slot lt run)
  outcome (vacant slot) run (lt, e) =
      counted_at-Outcome (settle s i slot hash frames truncated) _ slot
        (settle-own s v i slot hash v.current frames truncated)
        (unfold set_trace claim_slot in refl) (settled-Counts t hash weight slot _ lt e run)
  outcome exhausted run ends = overflowed refl run refl refl

  pub put_locked-Outcome :
      Outcome s hash weight
        (put_locked s frames truncated weight).0
        (put_locked s frames truncated weight).1
  unfolding put_locked
  put_locked-Outcome =
      outcome (search_table t hash) refl
        (search_table-Ends t hash (capacity_pos _ (v.slots i v.current)))

-- A lock that is not held exclusively lets `put` in, and has its value again afterwards.
abbrev pub IsOpen : ℕ → Type 0
IsOpen lock = (admits_shared lock ≡ true) × (lock < 2 ^ 32)

open-try : (lock : ℕ) → IsOpen lock → try_lock_shared lock ≡ (true, (lock + 2 ^ 32 - 1) % 2 ^ 32)
unfolding try_lock_shared swap_shared compare_and_swap
open-try lock (e, lt) = rw (e, ==_refl lock)

pub open-again : (lock : ℕ) → lock < 2 ^ 32 → unlock_shared ((lock + 2 ^ 32 - 1) % 2 ^ 32) ≡ lock
unfolding unlock_shared
open-again lock lt = omega arith

relocked :
    (s s' : CallTraceStorage) (key weight id l m : ℕ)
    → Outcome (record s { lock = l }) key weight id s'
    → Outcome s key weight id (record s' { lock = m })
relocked s s' key weight id l m (overflowed a b c d) = overflowed a b c d
relocked s s' key weight id l m (counted slot a b) = counted slot a b

-- `put` of an open storage, without its locks.
pub put-open :
    (s : CallTraceStorage) (frames : List CallFrame) (truncated : Bool) (weight : ℕ)
    → IsOpen s.lock
    → (let r =
          put_locked (record s { lock = (s.lock + 2 ^ 32 - 1) % 2 ^ 32 }) frames truncated weight in
        put s frames truncated weight ≡ (r.0, record r.1 { lock = unlock_shared r.1.lock }))
put-open s frames truncated weight o =
    unfold put in rw (open-try s.lock o) (unfold put_with in refl)

pub relocked-IsValid : (s : CallTraceStorage) (l : ℕ) → IsValid s → IsValid (record s { lock = l })
relocked-IsValid s l v = record { current = v.current; older = v.older; slots = v.slots }

-- Storing a stack trace in a valid storage whose lock is free or shared returns: either the current
-- table was searched through in vain, and then the id of the overflow is returned, the overflow is
-- counted and the tables stay; or the id is that of a row of this table, and afterwards the row is
-- found under the hash of the trace, it counts one sample and the weight more, and no other row of the
-- table changed its value.
pub put-Outcome :
    (s : CallTraceStorage) (frames : List CallFrame) (truncated : Bool) (weight : ℕ)
    → IsValid s
    → IsOpen s.lock
    → Outcome s
        (calc_hash frames truncated)
        weight
        (put s frames truncated weight).0
        (put s frames truncated weight).1
put-Outcome s frames truncated weight v o =
    let l = (s.lock + 2 ^ 32 - 1) % 2 ^ 32 in
    rw (put-open s frames truncated weight o) (
      relocked s _ _ weight _ l _ (
        put_locked-Outcome (record s { lock = l }) (relocked-IsValid s l v) frames truncated
          weight))
