-- ===== src/Buffer/Fixed.antt =====
-- The numbers of a fixed width: big-endian stores, and the length that is patched in afterwards.
use java_profiler.Base.{ℕ, zero, suc, ◌+◌, ◌*◌, ◌/◌, ◌%◌, ◌^◌, ◌≤◌, ◌<◌, ◌≡◌, refl, ◌⊎◌, ◌∙◌, arith}
use java_profiler.Base.Bits.{bit_or_top}
use java_profiler.Buffer.{Buffer, put16, put32, put64, put_var32_at}
use java_profiler.Buffer.Reader.{read_var, read_fixed}

-- The store wrote `v` in `k` bytes at the offset, and kept all bytes before.
pub record Stores (k v : ℕ) (b b' : Buffer) : Type 0 where
  pub reads : read_fixed k b'.memory b.offset ≡ v
  pub ends : b'.offset ≡ b.offset + k
  pub keeps : (j : ℕ) → j < b.offset → b'.memory j ≡ b.memory j

read_fixed_congr :
    (k : ℕ) (m m' : ℕ → ℕ) (pos : ℕ)
    → ((j : ℕ) → j < pos + k → m j ≡ m' j)
    → read_fixed k m pos ≡ read_fixed k m' pos
unfolding read_fixed
read_fixed_congr zero m m' pos h = refl
read_fixed_congr (suc k) m m' pos h =
    omega (arith, read_fixed_congr k m m' pos (λ j l. h j (omega arith)), h (pos + k) (omega arith))

put16-Stores : (v : ℕ) (b : Buffer) → Stores 2 (v % 2 ^ 16) b (put16 v b)
unfolding read_fixed put16
put16-Stores v b = record { reads = ground arith; ends = ground arith; keeps = λ j h. ground arith }

-- Two stores, the high half first.
two_halves :
    (k hi lo : ℕ) (b b₁ b₂ : Buffer)
    → Stores k hi b b₁
    → Stores k lo b₁ b₂
    → (read_fixed k b₂.memory b.offset ≡ hi)
      × (read_fixed k b₂.memory (b.offset + k) ≡ lo)
      × (b₂.offset ≡ b.offset + k + k)
      × ((j : ℕ) → j < b.offset → b₂.memory j ≡ b.memory j)
two_halves k hi lo b b₁ b₂ p q = (
  read_fixed_congr k b₂.memory b₁.memory b.offset (λ j h. q.keeps j (omega (arith, p.ends)))
      ∙ p.reads,
  rw p.ends at q.reads,
  omega (arith, p.ends, q.ends),
  λ j h. q.keeps j (omega (arith, p.ends)) ∙ p.keeps j h,
)

read_four :
    (m : ℕ → ℕ) (pos : ℕ)
    → read_fixed 4 m pos ≡ read_fixed 2 m pos * 2 ^ 16 + read_fixed 2 m (pos + 2)
unfolding read_fixed
read_four m pos = ground arith

read_eight :
    (m : ℕ → ℕ) (pos : ℕ)
    → read_fixed 8 m pos ≡ read_fixed 4 m pos * 2 ^ 32 + read_fixed 4 m (pos + 4)
unfolding read_fixed
read_eight m pos = ground arith

put32-Stores : (v : ℕ) (b : Buffer) → Stores 4 (v % 2 ^ 32) b (put32 v b)
put32-Stores v b =
    let (hi, lo, ends, keeps) =
      two_halves 2 _ _ b _ _ (put16-Stores (v / 2 ^ 16) b)
        (put16-Stores v (put16 (v / 2 ^ 16) b)) in
    unfold put32 in
    record {
      reads = read_four _ b.offset ∙ omega (arith, hi, lo);
      ends = omega (arith, ends);
      keeps = keeps;
    }

put64-Stores : (v : ℕ) (b : Buffer) → Stores 8 (v % 2 ^ 64) b (put64 v b)
put64-Stores v b =
    let (hi, lo, ends, keeps) =
      two_halves 4 _ _ b _ _ (put32-Stores (v / 2 ^ 32) b)
        (put32-Stores v (put32 (v / 2 ^ 32) b)) in
    unfold put64 in
    record {
      reads = read_eight _ b.offset ∙ omega (arith, hi, lo);
      ends = omega (arith, ends);
      keeps = keeps;
    }

-- `put16`, `put32` and `put64` store the low 16, 32 and 64 bits of their argument: a big-endian reader
-- takes them back from the 2, 4 and 8 bytes at the old offset, behind which the next write starts, and
-- the bytes before are kept.
pub put-Stores :
    (v : ℕ) (b : Buffer)
    → Stores 2 (v % 2 ^ 16) b (put16 v b)
      × Stores 4 (v % 2 ^ 32) b (put32 v b)
      × Stores 8 (v % 2 ^ 64) b (put64 v b)
put-Stores v b = (put16-Stores v b, put32-Stores v b, put64-Stores v b)

module _ (offset v : ℕ) (b : Buffer) where
  abbrev patched : ℕ → ℕ
  patched = (put_var32_at offset v b).memory

  more_at : (i : ℕ) → i < 4 → patched (offset + i) ≡ v / 2 ^ (7 * i) % 128 + 128
  unfolding put_var32_at
  more_at zero h = ground (arith, bit_or_top v)
  more_at (suc zero) h = ground (arith, bit_or_top (v / 2 ^ 7))
  more_at (suc (suc zero)) h = ground (arith, bit_or_top (v / 2 ^ 14))
  more_at (suc (suc (suc zero))) h = ground (arith, bit_or_top (v / 2 ^ 21))
  more_at (suc (suc (suc (suc i)))) h = absurd (omega arith)

  last_at : v < 2 ^ 32 → patched (offset + 4) ≡ v / 2 ^ 28
  unfolding put_var32_at
  last_at h = ground arith

  patched_elsewhere : (j : ℕ) → (j < offset) ⊎ (offset + 5 ≤ j) → patched j ≡ b.memory j
  unfolding put_var32_at
  patched_elsewhere j far = ground arith

-- Four continuation bytes and a last byte, in the order of the reader.
read_five :
    (m : ℕ → ℕ) (pos v : ℕ)
    → m (pos + 0) ≡ v % 128 + 128
    → m (pos + 1) ≡ v / 2 ^ 7 % 128 + 128
    → m (pos + 2) ≡ v / 2 ^ 14 % 128 + 128
    → m (pos + 3) ≡ v / 2 ^ 21 % 128 + 128
    → m (pos + 4) ≡ v / 2 ^ 28
    → read_var 4 m pos ≡ (v, pos + 5)
unfolding read_var
read_five m pos v e₀ e₁ e₂ e₃ e₄ = ground arith

-- `putVar32(offset, v)` fills the five bytes at `offset` and no other, leaves the end of the buffer
-- where it was, and the reader takes any unsigned 32-bit number back from exactly these five bytes.
pub read_var-put_var32_at :
    (offset v : ℕ) (b : Buffer)
    → v < 2 ^ 32
    → (read_var 4 (put_var32_at offset v b).memory offset ≡ (v, offset + 5))
      × ((put_var32_at offset v b).offset ≡ b.offset)
      × ((j : ℕ)
          → (j < offset) ⊎ (offset + 5 ≤ j)
          → (put_var32_at offset v b).memory j ≡ b.memory j)
read_var-put_var32_at offset v b h = (
  read_five _ offset v (more_at offset v b 0 (omega arith) ∙ omega arith)
      (more_at offset v b 1 (omega arith)) (more_at offset v b 2 (omega arith))
      (more_at offset v b 3 (omega arith)) (last_at offset v b h),
  unfold put_var32_at in refl,
  patched_elsewhere offset v b,
)
