-- ===== src/CallTraceStorage/Probing.antt =====
-- The search for a hash in a table.
use java_profiler.Base.{
  ℕ, zero, suc, ◌+◌, ◌-◌, ◌<◌, ◌≡◌, false, ◌==◌, leb, update, arith, Bool-cases, inl, inr, ==_refl,
}
use java_profiler.Base.Bits.{bit_and-le}
use java_profiler.CallTraceStorage.{Probe, hit, vacant, exhausted, probe}

-- What the end of a search says of the keys.
abbrev pub Ends : (ℕ → ℕ) → ℕ → ℕ → Probe → Type 0
Ends keys capacity hash (hit slot) = (slot < capacity) × (keys slot ≡ hash)
Ends keys capacity hash (vacant slot) = (slot < capacity) × (keys slot ≡ 0)
Ends keys capacity hash exhausted = Unit

module _ (keys : ℕ → ℕ) (capacity hash : ℕ) (positive : 0 < capacity) where
  pub probe-Ends :
      (left slot step : ℕ)
      → slot < capacity
      → Ends keys capacity hash (probe keys capacity hash left slot step)
  unfolding probe
  probe-Ends zero slot step lt = tt
  probe-Ends (suc left) slot step lt = elim (Bool-cases (keys slot == hash)) [
    | inl e ↦ rw e (lt, ground arith)
    | inr e ↦ elim (Bool-cases (keys slot == 0)) [
      | inl z ↦ rw (e, z) (lt, ground arith)
      | inr z ↦ elim (Bool-cases (leb capacity (step + 1))) [
        | inl c ↦ rw (e, z, c) tt
        | inr c ↦
            rw (e, z, c)
              (probe-Ends left _ (step + 1)
                (omega (arith, bit_and-le (slot + (step + 1)) (capacity - 1))))
      ]
    ]
  ]

-- A search that ended at a free slot ends there at the hash, once the slot holds it.
pub probe-claimed :
    (keys : ℕ → ℕ) (capacity hash left slot step free : ℕ)
    → keys free ≡ 0
    → probe keys capacity hash left slot step ≡ vacant free
    → probe (update keys free hash) capacity hash left slot step ≡ hit free
unfolding probe
probe-claimed keys capacity hash zero slot step free z e = absurd cc
probe-claimed keys capacity hash (suc left) slot step free z e =
    elim (Bool-cases (keys slot == hash)) [
      | inl h ↦ let d : hit slot ≡ vacant free = rw h at e in absurd (cc)
      | inr h ↦ elim (Bool-cases (keys slot == 0)) [
        | inl f ↦
            let d : vacant slot ≡ vacant free = rw (h, f) at e in
            let same : slot ≡ free = cc in rw (same, ==_refl free, ==_refl hash)
        | inr f ↦
            let apart : (free == slot) ≡ false = elim (Bool-cases (free == slot)) [
              | inl q ↦
                  let same : free ≡ slot = ground arith in
                  absurd (let z' = rw same at z in ground arith)
              | inr q ↦ q
            ] in
            elim (Bool-cases (leb capacity (step + 1))) [
              | inl c ↦ let d : exhausted ≡ vacant free = rw (h, f, c) at e in absurd (cc)
              | inr c ↦
                  rw (apart, h, f, c)
                    (probe-claimed keys capacity hash left _ (step + 1) free z (rw (h, f, c) at e))
            ]
      ]
    ]
