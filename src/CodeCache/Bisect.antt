-- ===== src/CodeCache/Bisect.antt =====
-- The binary search ends, and where it ends.
use java_profiler.Base.{
  ℕ, zero, suc, ◌+◌, ◌-◌, ◌/◌, ◌≤◌, ◌<◌, ◌≡◌, refl, false, ltb, some, arith, Bool-cases, inl, inr,
  ◌⊎◌,
}
use native.Mathlib.Decide.{dec_lt}
use java_profiler.CodeCache.{Side, before, behind, here, Search, at, missing, bisect}

-- Entries before what is searched come first, entries behind it last.
pub record IsSplit (side : ℕ → Side) (n : ℕ) : Type 0 where
  pub down : (j k : ℕ) → j < k → k < n → side k ≡ before → side j ≡ before
  pub up : (j k : ℕ) → j < k → k < n → side j ≡ behind → side k ≡ behind

-- What the end of a search says of the entries.
abbrev pub Ends : (ℕ → Side) → (low past : ℕ) → Search → Type 0
Ends side low past (at i) = (low ≤ i) × (i < past) × (side i ≡ here)
Ends side low past (missing l) =
    (low ≤ l)
    × (l ≤ past)
    × ((j : ℕ) → low ≤ j → j < l → side j ≡ before)
    × ((j : ℕ) → l ≤ j → j < past → side j ≡ behind)

Side-cases : (x : Side) → (x ≡ before) ⊎ (x ≡ behind) ⊎ (x ≡ here)
Side-cases before = inl refl
Side-cases behind = inr (inl refl)
Side-cases here = inr (inr refl)

module _ (side : ℕ → Side) (n low mid past : ℕ) (s : IsSplit side n) (top : past ≤ n)
    (above : low ≤ mid) (inner : mid < past) where
  up_to : side mid ≡ before → (j : ℕ) → j ≤ mid → side j ≡ before
  up_to q j le = elim (dec_lt j mid) [
    | yes p ↦ s.down j mid p (omega arith) q
    | no p ↦ let same : mid ≡ j = omega arith in rw (← same) q
  ]

  from : side mid ≡ behind → (j : ℕ) → mid ≤ j → j < past → side j ≡ behind
  from q j le lt = elim (dec_lt mid j) [
    | yes p ↦ s.up mid j p (omega arith) q
    | no p ↦ let same : mid ≡ j = omega arith in rw (← same) q
  ]

  widen_low : side mid ≡ before → (r : Search) → Ends side (mid + 1) past r → Ends side low past r
  widen_low q (at i) (a, b, c) = (omega arith, b, c)
  widen_low q (missing l) (a, b, c, d) = (
    omega arith,
    b,
    λ j lo hi. elim (dec_lt mid j) [
      | yes p ↦ c j (omega arith) hi
      | no p ↦ up_to q j (omega arith)
    ],
    d,
  )

  widen_past : side mid ≡ behind → (r : Search) → Ends side low mid r → Ends side low past r
  widen_past q (at i) (a, b, c) = (a, omega arith, c)
  widen_past q (missing l) (a, b, c, d) = (
    a,
    omega arith,
    c,
    λ j lo hi. elim (dec_lt j mid) [ yes p ↦ d j lo p | no p ↦ from q j (omega arith) hi ],
  )

-- A search with at least as much fuel as entries ends, and its end is right.
pub bisect-Ends :
    (side : ℕ → Side) (n fuel low past : ℕ)
    → IsSplit side n
    → past ≤ n
    → low ≤ past
    → past ≤ low + fuel
    → (r : Search) × (bisect side fuel low past ≡ some r) × Ends side low past r
unfolding bisect
bisect-Ends side n zero low past s top order fuel =
    let empty : ltb low past ≡ false = ground arith in
    (
      missing low,
      rw empty,
      (omega arith, omega arith, λ j a b. absurd (omega arith), λ j a b. absurd (omega arith)),
    )
bisect-Ends side n (suc fuel) low past s top order enough = elim (Bool-cases (ltb low past)) [
  | inr e ↦ (
    missing low,
    rw e,
    (omega arith, omega arith, λ j a b. absurd (omega arith), λ j a b. absurd (ground arith)),
  )
  | inl e ↦
      let lt : low < past = ground arith in
      let mid = (low + past - 1) / 2 in
      let inner : mid < past = omega arith in
      elim (Side-cases (side mid)) [
        | inl q ↦
            let (r, run, ends) =
              bisect-Ends side n fuel (mid + 1) past s top (omega arith) (omega arith) in
            (r, rw (e, q) run, widen_low side n low mid past s top (omega arith) inner q r ends)
        | inr (inr q) ↦ (at mid, rw (e, q), (omega arith, inner, q))
        | inr (inl q) ↦
            let (r, run, ends) =
              bisect-Ends side n fuel low mid s (omega arith) (omega arith) (omega arith) in
            (r, rw (e, q) run, widen_past side n low mid past s top (omega arith) inner q r ends)
      ]
]
