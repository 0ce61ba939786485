-- ===== src/CallTraceStorage/Again.antt =====
-- The same stack trace once more, and what every `put` keeps.
use java_profiler.Base.{
  ℕ, ◌%◌, ◌^◌, ◌<◌, ◌≡◌, refl, ◌∙◌, Bool, List, Option, some, none, ap, Bool-cases, inl, inr, ◌==◌,
  ◌*◌, ◌/◌,
}
use java_profiler.SpinLock.{unlock_shared}
use java_profiler.CallTraceStorage.Claim.{IsValid, set_table-IsValid, settle-IsValid, claimed}
use java_profiler.CallTraceStorage.Put.{
  Outcome, overflowed, counted, IsOpen, put-open, open-again, relocked-IsValid, put-Outcome,
}
use java_profiler.CallTraceStorage.{
  CallFrame, CallTraceStorage, Probe, hit, vacant, exhausted, search_table, count_sample, trace_id,
  counted_at, put_at, put_locked, put, calc_hash, overflow_trace_id, settle, claim_slot, set_trace,
  or_stored, previous_trace, reserve_table, clear_previous, set_table,
}

-- The id of a search's end that claims no slot.
abbrev id_of : ℕ → Probe → ℕ
id_of capacity (hit slot) = trace_id capacity slot
id_of capacity _ = overflow_trace_id

abbrev IsTaken : Probe → Type 0
IsTaken (vacant slot) = ⊥
IsTaken _ = Unit

module _ (s : CallTraceStorage) (frames : List CallFrame) (truncated : Bool) (weight : ℕ) where
  abbrev ending : Probe
  ending = search_table (s.tables s.current_table) (calc_hash frames truncated)

  put_at_taken :
      (i key : ℕ) (p : Probe)
      → IsTaken p
      → (put_at s i key frames truncated weight p).0 ≡ id_of (s.tables i).capacity p
  unfolding put_at counted_at
  put_at_taken i key (hit slot) taken = refl
  put_at_taken i key (vacant slot) taken = absurd taken
  put_at_taken i key exhausted taken = refl

  put_locked_taken :
      IsTaken ending
      → (put_locked s frames truncated weight).0 ≡ id_of (s.tables s.current_table).capacity ending
  unfolding put_locked
  put_locked_taken = put_at_taken s.current_table (calc_hash frames truncated) _

reserve_table-lock : (s : CallTraceStorage) (i : ℕ) → (reserve_table s i).lock ≡ s.lock
unfolding reserve_table
reserve_table-lock s i =
    elim (Bool-cases ((s.tables i).size == (s.tables i).capacity * 3 % 2 ^ 32 / 4)) [
      | inl e ↦ rw e
      | inr e ↦ rw e
    ]

clear_previous-lock :
    (s : CallTraceStorage) (o : Option ℕ) (slot : ℕ) → (clear_previous s o slot).lock ≡ s.lock
unfolding clear_previous
clear_previous-lock s none slot = refl
clear_previous-lock s (some p) slot = refl

settle-lock :
    (s : CallTraceStorage) (i slot key : ℕ) (frames : List CallFrame) (truncated : Bool)
    → (settle s i slot key frames truncated).lock ≡ s.lock
unfolding settle
settle-lock s i slot key frames truncated =
    let c = claimed s i slot key in
    clear_previous-lock
      (set_table c i (
        set_trace (c.tables i) slot
          (or_stored (previous_trace c (c.tables i).prev key) frames truncated)))
      (c.tables i).prev slot
    ∙ reserve_table-lock (set_table s i (claim_slot (s.tables i) slot key)) i

put_at-lock :
    (s : CallTraceStorage) (i key : ℕ) (frames : List CallFrame) (truncated : Bool) (weight : ℕ)
    (p : Probe)
    → (put_at s i key frames truncated weight p).1.lock ≡ s.lock
unfolding put_at counted_at
put_at-lock s i key frames truncated weight (hit slot) = refl
put_at-lock s i key frames truncated weight (vacant slot) =
    settle-lock s i slot key frames truncated
put_at-lock s i key frames truncated weight exhausted = refl

put_locked-lock :
    (s : CallTraceStorage) (frames : List CallFrame) (truncated : Bool) (weight : ℕ)
    → (put_locked s frames truncated weight).1.lock ≡ s.lock
unfolding put_locked
put_locked-lock s frames truncated weight =
    put_at-lock s s.current_table (calc_hash frames truncated) frames truncated weight _

put-lock :
    (s : CallTraceStorage) (frames : List CallFrame) (truncated : Bool) (weight : ℕ)
    → IsOpen s.lock
    → (put s frames truncated weight).1.lock ≡ s.lock
put-lock s frames truncated weight o =
    rw (put-open s frames truncated weight o)
      (ap unlock_shared (put_locked-lock _ frames truncated weight) ∙ open-again s.lock o.1)

put_taken :
    (s : CallTraceStorage) (frames : List CallFrame) (truncated : Bool) (weight : ℕ)
    → IsOpen s.lock
    → IsTaken (ending s frames truncated weight)
    → (put s frames truncated weight).0
      ≡ id_of (s.tables s.current_table).capacity (ending s frames truncated weight)
put_taken s frames truncated weight o taken =
    rw (put-open s frames truncated weight o) (put_locked_taken _ frames truncated weight taken)

-- As long as the current table stays, storing the same stack trace again returns the same id, and the
-- lock has its value back after the first time and after the second.
pub put_again :
    (s : CallTraceStorage) (frames : List CallFrame) (truncated : Bool) (w w' : ℕ)
    → IsValid s
    → IsOpen s.lock
    → (put s frames truncated w).1.current_table ≡ s.current_table
    → ((put (put s frames truncated w).1 frames truncated w').0 ≡ (put s frames truncated w).0)
      × ((put s frames truncated w).1.lock ≡ s.lock)
      × ((put (put s frames truncated w).1 frames truncated w').1.lock ≡ s.lock)
put_again s frames truncated w w' v o stays = (
  same (put-Outcome s frames truncated w v o),
  put-lock s frames truncated w o,
  put-lock s1 frames truncated w' o1 ∙ put-lock s frames truncated w o,
)
  where
    s1 : CallTraceStorage
    s1 = (put s frames truncated w).1

    o1 : IsOpen s1.lock
    o1 = rw (put-lock s frames truncated w o) o

    same :
        Outcome s (calc_hash frames truncated) w (put s frames truncated w).0 s1
        → (put s1 frames truncated w').0 ≡ (put s frames truncated w).0
    same (overflowed a b c d) =
        let again : ending s1 frames truncated w' ≡ exhausted = rw (stays, c) b in
        put_taken s1 frames truncated w' o1 (rw again tt) ∙ rw (again, a)
    same (counted slot a b) =
        let again : ending s1 frames truncated w' ≡ hit slot = rw stays b.found in
        put_taken s1 frames truncated w' o1 (rw again tt) ∙ rw (again, stays, b.same_capacity, a)

counted_at-IsValid :
    (s : CallTraceStorage) (i slot weight : ℕ) → IsValid s → IsValid (counted_at s i slot weight).1
unfolding counted_at
counted_at-IsValid s i slot weight v =
    set_table-IsValid s i (count_sample (s.tables i) slot weight) v (unfold count_sample in refl)
      (unfold count_sample in refl)

module _ (s : CallTraceStorage) (frames : List CallFrame) (truncated : Bool) (weight : ℕ)
    (v : IsValid s) (small : (s.tables s.current_table).capacity < 2 ^ 30) where
  put_at-IsValid :
      (key : ℕ) (p : Probe) → IsValid (put_at s s.current_table key frames truncated weight p).1
  unfolding put_at
  put_at-IsValid key (hit slot) = counted_at-IsValid s s.current_table slot weight v
  put_at-IsValid key (vacant slot) =
      counted_at-IsValid (settle s s.current_table slot key frames truncated) s.current_table slot
        weight (settle-IsValid s s.current_table slot key frames truncated v v.current small)
  put_at-IsValid key exhausted = record { current = v.current; older = v.older; slots = v.slots }

  put_locked-IsValid : IsValid (put_locked s frames truncated weight).1
  unfolding put_locked
  put_locked-IsValid = put_at-IsValid (calc_hash frames truncated) _

-- Storing a stack trace keeps a storage valid, the doubled tables included, while the capacity of the
-- current table is below 2^30.
pub put-IsValid :
    (s : CallTraceStorage) (frames : List CallFrame) (truncated : Bool) (weight : ℕ)
    → IsValid s
    → IsOpen s.lock
    → (s.tables s.current_table).capacity < 2 ^ 30
    → IsValid (put s frames truncated weight).1
put-IsValid s frames truncated weight v o small = rw (put-open s frames truncated weight o) (
    relocked-IsValid _ _
      (put_locked-IsValid _ frames truncated weight (relocked-IsValid s _ v) small))
