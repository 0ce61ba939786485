-- ===== src/CallTraceStorage/Previous.antt =====
-- What a claimed slot does to the previous table.
use java_profiler.Base.{
  ℕ, ◌+◌, ◌-◌, ◌*◌, ◌/◌, ◌%◌, ◌^◌, ◌<◌, ◌≡◌, ◌∙◌, Bool, false, ◌==◌, ltb, arith, ==_refl, List,
  Option, none, some, refl, ◌≢◌, ◌⊎◌, Bool-cases, inl, inr,
}
use java_profiler.CallTraceStorage.Claim.{IsValid, reserve_table-tables, claimed-own, claimed}
use java_profiler.CallTraceStorage.Put.{IsOpen, put-open, relocked-IsValid}
use java_profiler.CallTraceStorage.{
  CallFrame, LongHashTable, CallTraceStorage, Probe, hit, vacant, exhausted, claim_slot, set_table,
  clear_previous, zero_key, zero_field, settle, set_trace, or_stored, previous_trace, calc_hash,
  search_table, trace_at, find_call_trace, counted_at, put_at, put_locked, put,
}

clear_previous-at :
    (s : CallTraceStorage) (o : Option ℕ) (p slot : ℕ)
    → o ≡ some p
    → (clear_previous s o slot).tables p ≡ zero_key (s.tables p) slot
unfolding clear_previous
clear_previous-at s none p slot e = absurd (cc)
clear_previous-at s (some q) p slot e = let same : q ≡ p = cc in rw (same, ==_refl p)

module _ (s : CallTraceStorage) (v : IsValid s) (i p slot hash : ℕ) (lt : i < s.allocated)
    (link : (s.tables i).prev ≡ some p) (frames : List CallFrame) (truncated : Bool) where
  settle-previous : (settle s i slot hash frames truncated).tables p ≡ zero_key (s.tables p) slot
  settle-previous =
      let lower = v.older i p lt link in
      let apart : (i == p) ≡ false = ground arith in
      let c = claimed s i slot hash in
      let own = claimed-own s v i slot hash lt frames truncated in
      let kept : c.tables p ≡ s.tables p =
        reserve_table-tables (set_table s i (claim_slot (s.tables i) slot hash)) i p (omega arith)
        ∙ rw apart in
      unfold settle in
      (clear_previous-at
          (set_table c i (
            set_trace (c.tables i) slot
              (or_stored (previous_trace c (c.tables i).prev hash) frames truncated)))
          (c.tables i).prev p slot (rw own (unfold claim_slot in link))
        ∙ rw (apart, kept))

-- A slot behind the keys, at the place in memory of the trace of a row.
module _ (t : LongHashTable) (slot row : ℕ) (place : slot ≡ t.capacity + row * 3) where
  behind : ltb slot t.capacity ≡ false
  behind = ground (arith, place)

  search_table-zeroed : (hash : ℕ) → search_table (zero_key t slot) hash ≡ search_table t hash
  unfolding search_table zero_key
  search_table-zeroed hash = rw behind refl

  trace_at-zeroed : trace_at (zero_key t slot) (hit row) ≡ none
  unfolding trace_at zero_key zero_field
  trace_at-zeroed =
      let at : (slot - t.capacity) / 3 ≡ row = omega (arith, place) in
      let first : (slot - t.capacity) % 3 ≡ 0 = omega (arith, place) in
      rw (behind, at, first, trace_at, ==_refl row) refl

  trace_at-other :
      (probe : Probe)
      → ((k : ℕ) → probe ≡ hit k → (row == k) ≡ false)
      → trace_at (zero_key t slot) probe ≡ trace_at t probe
  unfolding trace_at zero_key
  trace_at-other (hit k) apart =
      let at : (slot - t.capacity) / 3 ≡ row = omega (arith, place) in
      rw (behind, at, trace_at, apart k refl) refl
  trace_at-other (vacant k) apart = refl
  trace_at-other exhausted apart = refl

  find-zeroed :
      (hash : ℕ) → search_table t hash ≡ hit row → find_call_trace (zero_key t slot) hash ≡ none
  unfolding find_call_trace
  find-zeroed hash found = rw (search_table-zeroed hash, found) trace_at-zeroed

  find-other :
      (hash : ℕ)
      → ((k : ℕ) → search_table t hash ≡ hit k → (row == k) ≡ false)
      → find_call_trace (zero_key t slot) hash ≡ find_call_trace t hash
  unfolding find_call_trace
  find-other hash apart = rw (search_table-zeroed hash) (trace_at-other (search_table t hash) apart)

put-previous :
    (s : CallTraceStorage) (frames : List CallFrame) (truncated : Bool) (weight p slot : ℕ)
    → IsValid s
    → IsOpen s.lock
    → (s.tables s.current_table).prev ≡ some p
    → search_table (s.tables s.current_table) (calc_hash frames truncated) ≡ vacant slot
    → (put s frames truncated weight).1.tables p ≡ zero_key (s.tables p) slot
unfolding put_locked put_at counted_at
put-previous s frames truncated weight p slot v o link free =
    let i = s.current_table in
    let lower = v.older i p v.current link in
    let apart : (i == p) ≡ false = ground arith in
    let s' = record s { lock = (s.lock + 2 ^ 32 - 1) % 2 ^ 32 } in
    rw (put-open s frames truncated weight o) (
      rw (free, apart)
        (settle-previous s' (relocked-IsValid s _ v) i p slot (calc_hash frames truncated) v.current
          link frames truncated))

-- Whether a search ends at a row.
at_row :
    (row : ℕ) (probe : Probe)
    → (probe ≡ hit row) ⊎ ((probe ≢ hit row) × ((k : ℕ) → probe ≡ hit k → (row == k) ≡ false))
at_row row (hit j) = elim (Bool-cases (row == j)) [
  | inl e ↦ inl (let same : row ≡ j = ground arith in rw same refl)
  | inr e ↦
      inr (
        λ same. let at : j ≡ row = cc in ground arith,
        λ k same. let at : j ≡ k = cc in rw (← at) e,
      )
]
at_row row (vacant j) = inr (λ same. cc, λ k same. absurd (cc))
at_row row exhausted = inr (λ same. cc, λ k same. absurd (cc))

-- In a valid storage whose lock is free or shared, a new stack trace gets a free slot of the current
-- table, and the number of the slot is the previous table's capacity and three times a row: every hash that the previous table holds in that row
-- is still found there, but its trace is gone; every other hash has the trace there that it had.
pub put_loses :
    (s : CallTraceStorage) (frames : List CallFrame) (truncated : Bool) (weight p row : ℕ)
    → IsValid s
    → IsOpen s.lock
    → (s.tables s.current_table).prev ≡ some p
    → search_table (s.tables s.current_table) (calc_hash frames truncated)
      ≡ vacant ((s.tables p).capacity + row * 3)
    → (hash : ℕ)
    → (let t = s.tables p in
        let t' = (put s frames truncated weight).1.tables p in
        ((search_table t hash ≡ hit row)
          × (search_table t' hash ≡ hit row)
          × (find_call_trace t' hash ≡ none))
        ⊎ ((search_table t hash ≢ hit row) × (find_call_trace t' hash ≡ find_call_trace t hash)))
put_loses s frames truncated weight p row v o link free hash =
    let t = s.tables p in
    let slot = t.capacity + row * 3 in
    rw (put-previous s frames truncated weight p slot v o link free)
      (elim (at_row row (search_table t hash)) [
        | inl found ↦ inl (
          found,
          search_table-zeroed t slot row refl hash ∙ found,
          find-zeroed t slot row refl hash found,
        )
        | inr (other, apart) ↦ inr (other, find-other t slot row refl hash apart)
      ])
