-- ===== src/ThreadFilter/Lowest.antt =====
-- The lowest one of a word, and the word without it.
use java_profiler.Base.{
  ℕ, zero, suc, ◌+◌, ◌-◌, ◌*◌, ◌/◌, ◌%◌, ◌^◌, ◌≤◌, ◌<◌, ◌≡◌, refl, ◌∙◌, bit_and, ◌==◌,
  if◌then◌else◌, arith, inl, inr, ◌≢◌, Bool-cases,
}
use java_profiler.Base.Bits.{digit, double, halving, bit_and_step}
use java_profiler.ThreadFilter.Collect.{count_zeros, drop_lowest}

bit_and_self : (x : ℕ) → bit_and x x ≡ x
bit_and_self = halving _ refl (λ x ih. omega (arith, bit_and_step (suc x) (suc x), ih))

drop_lowest-odd : (w : ℕ) → w % 2 ≡ 1 → drop_lowest w ≡ w / 2 * 2
unfolding drop_lowest
drop_lowest-odd w odd =
    let half : (w - 1) / 2 ≡ w / 2 = omega (arith, odd) in
    bit_and_step w (w - 1) ∙ rw (half, bit_and_self (w / 2)) (omega (arith, odd))

drop_lowest-even : (w : ℕ) → w % 2 ≡ 0 → 0 < w → drop_lowest w ≡ drop_lowest (w / 2) * 2
unfolding drop_lowest
drop_lowest-even w even pos =
    let half : (w - 1) / 2 ≡ w / 2 - 1 = omega (arith, even, pos) in
    bit_and_step w (w - 1) ∙ rw half (omega (arith, even))

-- How many of the lowest `bits` digits are ones.
unfoldable pub ones : (bits w : ℕ) → ℕ
ones zero w = 0
ones (suc bits) w = w % 2 + ones bits (w / 2)

pub ones-le : (bits w : ℕ) → ones bits w ≤ bits
unfolding ones
ones-le zero w = omega arith
ones-le (suc bits) w = omega (arith, ones-le bits (w / 2))

pub ones_none : (bits w k : ℕ) → ones bits w ≡ 0 → k < bits → digit w k ≡ 0
unfolding ones digit
ones_none zero w k e lt = absurd (omega arith)
ones_none (suc bits) w zero e lt = omega (arith, e)
ones_none (suc bits) w (suc k) e lt = ones_none bits (w / 2) k (omega (arith, e)) (omega arith)

pub record Dropped (bits w c w' : ℕ) : Type 0 where
  pub inside : c < bits
  pub one : digit w c ≡ 1
  pub others : (k : ℕ) → digit w' k ≡ (if c == k then 0 else digit w k)
  pub fewer : ones bits w' + 1 ≡ ones bits w
  pub small : w' < 2 ^ bits

odd-Dropped : (bits w : ℕ) → w % 2 ≡ 1 → w < 2 ^ suc bits → Dropped (suc bits) w 0 (w / 2 * 2)
unfolding digit ones
odd-Dropped bits w odd lt = record {
  inside = omega arith;
  one = odd;
  others = others;
  fewer = rw half (omega (arith, odd));
  small = omega (arith, lt);
}
  where
    half : w / 2 * 2 / 2 ≡ w / 2
    half = omega arith

    others : (k : ℕ) → digit (w / 2 * 2) k ≡ (if 0 == k then 0 else digit w k)
    others zero = omega arith
    others (suc k) = rw half (ground arith)

even-Dropped :
    (bits w c w' : ℕ)
    → w % 2 ≡ 0
    → Dropped bits (w / 2) c w'
    → Dropped (suc bits) w (suc c) (w' * 2)
unfolding digit ones
even-Dropped bits w c w' even d = record {
  inside = omega (arith, d.inside);
  one = d.one;
  others = others;
  fewer = rw half (omega (arith, even, d.fewer));
  small = omega (arith, double bits, d.small);
}
  where
    half : w' * 2 / 2 ≡ w'
    half = omega arith

    others : (k : ℕ) → digit (w' * 2) k ≡ (if suc c == k then 0 else digit w k)
    others zero = ground (arith, even)
    others (suc k) = rw (half, d.others k) (ground arith)

pub drop_lowest-Dropped :
    (bits w : ℕ) → 0 < w → w < 2 ^ bits → Dropped bits w (count_zeros bits w) (drop_lowest w)
unfolding count_zeros
drop_lowest-Dropped zero w pos lt = absurd (omega arith)
drop_lowest-Dropped (suc bits) w pos lt = elim (Bool-cases (w % 2 == 1)) [
  | inl h ↦
      let odd : w % 2 ≡ 1 = ground arith in
      rw (h, drop_lowest-odd w odd) (odd-Dropped bits w odd lt)
  | inr h ↦
      let odd_not : w % 2 ≢ 1 = λ e. ground arith in
      let even : w % 2 ≡ 0 = omega (arith, odd_not) in
      rw (h, drop_lowest-even w even pos)
        (even-Dropped bits w _ _ even
          (drop_lowest-Dropped bits (w / 2) (omega (arith, even)) (omega (arith, double bits))))
]
