-- ===== src/ThreadFilter/Words.antt =====
-- One bit of one word of one bitmap stands for each thread id.
use java_profiler.Base.{
  ℕ, zero, suc, ◌-◌, ◌*◌, ◌/◌, ◌%◌, ◌^◌, ◌≤◌, ◌<◌, ◌≡◌, refl, ◌∙◌, bit_and, bit_or, Bool, true,
  false, not, ◌==◌, ◌&&◌, if◌then◌else◌, arith, Bool-cases, inl, inr, some, update,
}
use java_profiler.Base.Bits.{digit, digit-le, bit_and-pow, two_pow_pos, digit-bit_or, digit-clear}
use java_profiler.ThreadFilter.{bitmap_capacity, zero_bitmap, word_index, bit_of, accept_in}

-- The bit of a thread in a word, as the test of the code reads it.
pub test-digit :
    (w thread_id : ℕ) → (bit_and w (bit_of thread_id) == 0) ≡ not (digit w (thread_id % 64) == 1)
unfolding bit_of
test-digit w thread_id =
    let k = thread_id % 64 in
    rw (bit_and-pow w k) (bit_cases (digit w k) (2 ^ k) (digit-le w k) (two_pow_pos k))
  where
    bit_cases : (b p : ℕ) → b ≤ 1 → 0 < p → (b * p == 0) ≡ not (b == 1)
    bit_cases zero p h q = let e : 0 * p ≡ 0 = omega arith in rw e
    bit_cases (suc zero) p h q = let e : 1 * p ≡ p = omega arith in rw e (ground arith)
    bit_cases (suc (suc b)) p h q = absurd (omega arith)

-- Thread ids are equal when slot, word and bit are.
pub id_of_position :
    (i j : ℕ)
    → i / bitmap_capacity ≡ j / bitmap_capacity
    → word_index i ≡ word_index j
    → i % 64 ≡ j % 64
    → i ≡ j
unfolding word_index
id_of_position i j a b c = omega arith

pub accept_in-some :
    (b : ℕ → ℕ) (j : ℕ) → accept_in (some b) j ≡ (digit (b (word_index j)) (j % 64) == 1)
unfolding accept_in
accept_in-some b j =
    rw (test-digit (b (word_index j)) j) (twice (digit (b (word_index j)) (j % 64) == 1))
  where
    twice : (b : Bool) → not (not b) ≡ b
    twice true = refl
    twice false = refl

pub digit-zero : (k : ℕ) → digit 0 k ≡ 0
unfolding digit
digit-zero zero = refl
digit-zero (suc k) = digit-zero k

pub accept_in_zero : (j : ℕ) → accept_in (some zero_bitmap) j ≡ false
accept_in_zero j = accept_in-some zero_bitmap j ∙ rw (digit-zero (j % 64))

-- Two ids have one place in a bitmap.
abbrev pub same_place : ℕ → ℕ → Bool
same_place i j = word_index i == word_index j && i % 64 == j % 64

module _ (b : ℕ → ℕ) (i j : ℕ) where
  pub accept_in_set :
      accept_in (some (update b (word_index i) (bit_or (b (word_index i)) (bit_of i)))) j
      ≡ (if same_place i j then true else accept_in (some b) j)
  unfolding bit_of
  accept_in_set =
      rw (accept_in-some, accept_in-some)
        (elim (Bool-cases (word_index i == word_index j)) [
          | inl e ↦
              let q : word_index i ≡ word_index j = ground arith in
              rw (e, ← q, digit-bit_or (b (word_index i)) (i % 64) (j % 64)) (ground arith)
          | inr e ↦ rw e
        ])

  pub accept_in_clear :
      b (word_index i) < 2 ^ 64
      → accept_in
          (some (update b (word_index i) (bit_and (b (word_index i)) (2 ^ 64 - 1 - bit_of i))))
          j
        ≡ (if same_place i j then false else accept_in (some b) j)
  unfolding bit_of
  accept_in_clear fits =
      rw (accept_in-some, accept_in-some)
        (elim (Bool-cases (word_index i == word_index j)) [
          | inl e ↦
              let q : word_index i ≡ word_index j = ground arith in
              rw (e, ← q, digit-clear 64 (b (word_index i)) (i % 64) (j % 64) (omega arith) fits)
                (ground arith)
          | inr e ↦ rw e
        ])
