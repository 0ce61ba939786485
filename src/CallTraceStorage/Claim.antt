-- ===== src/CallTraceStorage/Claim.antt =====
-- A slot that is claimed: what becomes of its own table, and of the storage.
use java_profiler.Base.{
  ℕ, suc, ◌*◌, ◌/◌, ◌%◌, ◌^◌, ◌<◌, ◌≡◌, refl, ◌∙◌, Bool, false, ◌==◌, ltb, arith, Bool-cases, inl,
  inr, ==_refl, List, Option, none, some, sym,
}
use native.Mathlib.Decide.{dec_lt}
use native.Mathlib.Nat.{pow-suc}
use java_profiler.Base.Bits.{two_pow_pos}
use java_profiler.CallTraceStorage.{
  CallFrame, CallTrace, LongHashTable, CallTraceStorage, new, new_table, claim_slot, set_table,
  reserve_table, or_stored, previous_trace, clear_previous, zero_key, set_trace, settle,
  initial_capacity,
}

-- A capacity that the doublings reach within 32 bits: 65536 up to 2^30.
abbrev pub IsCapacity : ℕ → Type 0
IsCapacity capacity = (a : ℕ) × (a < 15) × (capacity ≡ initial_capacity * 2 ^ a)

-- Every link goes to an older table, and every table has a power of two of slots.
pub record IsValid (s : CallTraceStorage) : Type 0 where
  pub current : s.current_table < s.allocated
  pub older : (i p : ℕ) → i < s.allocated → (s.tables i).prev ≡ some p → p < i
  pub slots : (i : ℕ) → i < s.allocated → IsCapacity (s.tables i).capacity

pub new-IsValid : IsValid new
unfolding new new_table
new-IsValid = record {
  current = omega arith;
  older = λ i p lt e. absurd (cc);
  slots = λ i lt. (0, omega arith, refl);
}

pub capacity_pos : (capacity : ℕ) → IsCapacity capacity → 0 < capacity
capacity_pos capacity (a, lt, e) = omega (arith, e, two_pow_pos a)

pub reserve_table-tables :
    (s : CallTraceStorage) (i j : ℕ) → j < s.allocated → (reserve_table s i).tables j ≡ s.tables j
unfolding reserve_table
reserve_table-tables s i j lt =
    elim (Bool-cases ((s.tables i).size == (s.tables i).capacity * 3 % 2 ^ 32 / 4)) [
      | inl e ↦ let apart : (s.allocated == j) ≡ false = ground arith in rw (e, apart)
      | inr e ↦ rw e
    ]

clear_previous-others :
    (s : CallTraceStorage) (o : Option ℕ) (slot j : ℕ)
    → ((p : ℕ) → o ≡ some p → (p == j) ≡ false)
    → (clear_previous s o slot).tables j ≡ s.tables j
unfolding clear_previous
clear_previous-others s none slot j apart = refl
clear_previous-others s (some p) slot j apart = rw (apart p refl)

-- The table of a claimed slot afterwards, for the trace that it got.
abbrev pub settled : LongHashTable → ℕ → ℕ → CallTrace → LongHashTable
settled t slot hash trace = set_trace (claim_slot t slot hash) slot trace

abbrev pub claimed : CallTraceStorage → (i slot hash : ℕ) → CallTraceStorage
claimed s i slot hash = reserve_table (set_table s i (claim_slot (s.tables i) slot hash)) i

module _ (s : CallTraceStorage) (v : IsValid s) (i slot hash : ℕ) (lt : i < s.allocated)
    (frames : List CallFrame) (truncated : Bool) where
  abbrev pub settled_trace : CallTrace
  settled_trace =
      or_stored (previous_trace (claimed s i slot hash) (s.tables i).prev hash) frames truncated

  pub claimed-own : (claimed s i slot hash).tables i ≡ claim_slot (s.tables i) slot hash
  claimed-own =
      reserve_table-tables (set_table s i (claim_slot (s.tables i) slot hash)) i i lt
      ∙ rw (==_refl i)

  pub claim_slot-prev : (claim_slot (s.tables i) slot hash).prev ≡ (s.tables i).prev
  claim_slot-prev = unfold claim_slot in refl

  pub settle-own :
      (settle s i slot hash frames truncated).tables i
      ≡ settled (s.tables i) slot hash settled_trace
  settle-own =
      unfold settle in
      rw (claimed-own, claim_slot-prev)
        (clear_previous-others _ _ slot i (λ p e. let lower = v.older i p lt e in ground arith)
          ∙ rw (==_refl i))

-- A table may be replaced by one of the same link and capacity.
pub set_table-IsValid :
    (s : CallTraceStorage) (i : ℕ) (t : LongHashTable)
    → IsValid s
    → t.prev ≡ (s.tables i).prev
    → t.capacity ≡ (s.tables i).capacity
    → IsValid (set_table s i t)
set_table-IsValid s i t v link cap = record {
  current = v.current;
  older = λ j p lt e. elim (Bool-cases (i == j)) [
    | inl q ↦
        let same : i ≡ j = ground arith in v.older j p lt (rw (← same) (sym link ∙ (rw q at e)))
    | inr q ↦ v.older j p lt (rw q at e)
  ];
  slots = λ j lt. elim (Bool-cases (i == j)) [
    | inl q ↦ let same : i ≡ j = ground arith in rw (q, cap) (rw same (v.slots j lt))
    | inr q ↦ rw q (v.slots j lt)
  ];
}

doubled-IsCapacity :
    (capacity : ℕ) → IsCapacity capacity → capacity < 2 ^ 30 → IsCapacity (capacity * 2 % 2 ^ 32)
doubled-IsCapacity capacity (a, lt, e) small =
    let more : 2 ^ suc a ≡ 2 * 2 ^ a = omega (arith, pow-suc 2 a) in
    elim (dec_lt a 14) [
      | yes low ↦ (suc a, omega arith, omega (arith, e, more))
      | no high ↦
          let last : a ≡ 14 = omega arith in
          let whole : capacity ≡ initial_capacity * 2 ^ 14 = rw last at e in absurd (omega arith)
    ]

-- A table that is reserved keeps the storage valid, up to the last capacity that can double.
pub reserve_table-IsValid :
    (s : CallTraceStorage) (i : ℕ)
    → IsValid s
    → i < s.allocated
    → (s.tables i).capacity < 2 ^ 30
    → IsValid (reserve_table s i)
unfolding reserve_table new_table
reserve_table-IsValid s i v lt small =
    elim (Bool-cases ((s.tables i).size == (s.tables i).capacity * 3 % 2 ^ 32 / 4)) [
      | inr e ↦ rw e v
      | inl e ↦ rw e (record {
        current = omega arith;
        older = λ j p below link. elim (Bool-cases (s.allocated == j)) [
          | inl q ↦
              let own : some i ≡ some p = rw q at link in let same : i ≡ p = cc in ground arith
          | inr q ↦ v.older j p (ground arith) (rw q at link)
        ];
        slots = λ j below. elim (Bool-cases (s.allocated == j)) [
          | inl q ↦ rw q (doubled-IsCapacity _ (v.slots i lt) small)
          | inr q ↦ rw q (v.slots j (ground arith))
        ];
      })
    ]

zero_key-prev : (t : LongHashTable) (slot : ℕ) → (zero_key t slot).prev ≡ t.prev
unfolding zero_key
zero_key-prev t slot = elim (Bool-cases (ltb slot t.capacity)) [ inl e ↦ rw e | inr e ↦ rw e ]

zero_key-capacity : (t : LongHashTable) (slot : ℕ) → (zero_key t slot).capacity ≡ t.capacity
unfolding zero_key
zero_key-capacity t slot = elim (Bool-cases (ltb slot t.capacity)) [ inl e ↦ rw e | inr e ↦ rw e ]

clear_previous-IsValid :
    (s : CallTraceStorage) (o : Option ℕ) (slot : ℕ) → IsValid s → IsValid (clear_previous s o slot)
unfolding clear_previous
clear_previous-IsValid s none slot v = v
clear_previous-IsValid s (some p) slot v =
    set_table-IsValid s p (zero_key (s.tables p) slot) v (zero_key-prev _ slot)
      (zero_key-capacity _ slot)

pub settle-IsValid :
    (s : CallTraceStorage) (i slot hash : ℕ) (frames : List CallFrame) (truncated : Bool)
    → IsValid s
    → i < s.allocated
    → (s.tables i).capacity < 2 ^ 30
    → IsValid (settle s i slot hash frames truncated)
unfolding settle
settle-IsValid s i slot hash frames truncated v lt small =
    let first =
      set_table-IsValid s i (claim_slot (s.tables i) slot hash) v (unfold claim_slot in refl)
        (unfold claim_slot in refl) in
    let second =
      reserve_table-IsValid (set_table s i (claim_slot (s.tables i) slot hash)) i first lt
        (rw (==_refl i) (unfold claim_slot in small)) in
    clear_previous-IsValid _ _ slot
      (set_table-IsValid _ i _ second (unfold set_trace in refl) (unfold set_trace in refl))
