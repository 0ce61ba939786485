-- ===== src/CallTraceStorage/Ids.antt =====
-- The ids of stack traces.
use java_profiler.Base.{ℕ, ◌+◌, ◌-◌, ◌*◌, ◌^◌, ◌≤◌, ◌<◌, ◌≡◌, arith}
use java_profiler.Base.Bits.{two_pow_pos, pow_mono}
use java_profiler.CallTraceStorage.Claim.{IsCapacity}
use java_profiler.CallTraceStorage.{initial_capacity, overflow_trace_id, trace_id}
use native.Mathlib.Decide.{dec_lt}

capacity-le :
    (capacity : ℕ) → IsCapacity capacity → (initial_capacity ≤ capacity) × (capacity ≤ 2 ^ 30)
capacity-le capacity (a, lt, e) = (
  omega (arith, e, two_pow_pos a),
  elim (dec_lt a 14) [
    | yes low ↦ omega (arith, e, pow_mono 14 a low)
    | no high ↦
        let last : a ≡ 14 = omega arith in
        let whole : capacity ≡ initial_capacity * 2 ^ 14 = rw last at e in omega arith
  ],
)

trace_id-value :
    (capacity slot : ℕ)
    → IsCapacity capacity
    → slot < capacity
    → trace_id capacity slot + (initial_capacity - 1) ≡ capacity + slot
unfolding trace_id
trace_id-value capacity slot c lt =
    omega (arith, (capacity-le capacity c).0, (capacity-le capacity c).1)

-- No capacity lies between another one and its double.
capacity_unique : (c d : ℕ) → IsCapacity c → IsCapacity d → c ≤ d → d < 2 * c → c ≡ d
capacity_unique c d (a, al, ae) (b, bl, be) low high = elim (dec_lt a b) [
  | yes p ↦ absurd (omega (arith, ae, be, pow_mono b a p))
  | no p ↦ elim (dec_lt b a) [
    | yes q ↦ absurd (omega (arith, ae, be, pow_mono a b q, two_pow_pos b))
    | no q ↦
        let same : a ≡ b = omega arith in
        let ae' : c ≡ initial_capacity * 2 ^ b = rw same at ae in omega (arith, ae', be)
  ]
]

-- Rows with the same id are the same slot of tables of the same capacity.
pub trace_id_unique :
    (c d i j : ℕ)
    → IsCapacity c
    → IsCapacity d
    → i < c
    → j < d
    → trace_id c i ≡ trace_id d j
    → (c ≡ d) × (i ≡ j)
trace_id_unique c d i j ci dj il jl e =
    let sums : c + i ≡ d + j =
      omega (arith, trace_id-value c i ci il, trace_id-value d j dj jl, e) in
    let same : c ≡ d = elim (dec_lt d c) [
      | yes p ↦ omega (arith, capacity_unique d c dj ci (omega arith) (omega arith))
      | no p ↦ capacity_unique c d ci dj (omega arith) (omega arith)
    ] in
    (same, omega arith)

-- No row has the id 0 of a dropped sample or the id of the overflow.
pub trace_id-between :
    (c i : ℕ) → IsCapacity c → i < c → (0 < trace_id c i) × (trace_id c i < overflow_trace_id)
trace_id-between c i ci il = (
  omega (arith, trace_id-value c i ci il, (capacity-le c ci).0),
  omega (arith, trace_id-value c i ci il, (capacity-le c ci).1),
)
